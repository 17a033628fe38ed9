-- ===== src/License/Tokens/Redemption.antt =====
-- What a license token is good for: one redemption, in time, of an active product.
use cyberx_event_mgmt.Base.{
  ℕ, ◌+◌, ◌≤◌, ◌≡◌, refl, ap, sym, ◌∙◌, String, Option, none, some, true, false, List, [], ◌∷◌, ◌↔◌,
  ◌⊎◌, inl, inr, arith, Option-cases, eq_refl, find, update, find-update, find-append_none,
  find-holds, ◌++◌, seconds, ok,
}
use cyberx_event_mgmt.License.Data.{Product, Token, Db, get_product}
use cyberx_event_mgmt.License.Tokens.{
  has_hash, new_token, mark_used, generate_token, consume, validate_and_consume_token,
}

-- What must hold for the token with this hash to be redeemed at this time.
pub record IsRedeemable (db : Db) (now : ℕ) (h : String) (t : Token) (p : Product) : Type 0 where
  pub stored : find (has_hash h) db.tokens ≡ some t
  pub unused : t.used ≡ false
  pub in_time : now ≤ t.expires_at
  pub offered : get_product db t.product_id ≡ some p
  pub active : p.is_active ≡ true

consume-some :
    (hash : String → String) (db : Db) (now : ℕ) (client_ip h : String) (t : Token) (p : Product)
    → t.used ≡ false
    → now ≤ t.expires_at
    → get_product db t.product_id ≡ some p
    → p.is_active ≡ true
    → consume hash db now client_ip h (some t) ≡ (
      record db { tokens = update (has_hash h) (mark_used hash now client_ip) db.tokens },
      some (p.license_blob, p.name),
    )
unfolding consume
consume-some hash db now client_ip h t p u e g a = ground arith

consume-inv :
    (hash : String → String) (db : Db) (now : ℕ) (client_ip h : String) (t : Token)
    {r : String × String}
    → (consume hash db now client_ip h (some t)).1 ≡ some r
    → (p : Product) × (t.used ≡ false)
      × (now ≤ t.expires_at)
      × (get_product db t.product_id ≡ some p)
      × (p.is_active ≡ true)
      × (r ≡ (p.license_blob, p.name))
unfolding consume
consume-inv hash db now client_ip h t {r} e = elim (Option-cases (get_product db t.product_id)) [
  | inl missing ↦ absurd (ground arith)
  | inr (p, found) ↦ (p, ground arith, ground arith, found, ground arith, ground arith)
]

module _ (hash : String → String) (db : Db) (now : ℕ) (raw_token client_ip : String) where
  redeem-inv :
      {r : String × String}
      → (validate_and_consume_token hash db now raw_token client_ip).1 ≡ some r
      → (t : Token) × (p : Product) × IsRedeemable db now (hash raw_token) t p
        × (r ≡ (p.license_blob, p.name))
  unfolding validate_and_consume_token
  redeem-inv {r} e = elim (Option-cases (find (has_hash (hash raw_token)) db.tokens)) [
    | inl missing ↦ absurd (cc (rw missing at e))
    | inr (t, stored) ↦
        let (p, u, in_time, offered, active, same) =
          consume-inv hash db now client_ip (hash raw_token) t {r = r} (rw stored at e) in
        (
          t,
          p,
          record {
            stored = stored;
            unused = u;
            in_time = in_time;
            offered = offered;
            active = active;
          },
          same,
        )
  ]

  -- A token that can be redeemed is, and its row is marked.
  redeem :
      (t : Token) (p : Product)
      → IsRedeemable db now (hash raw_token) t p
      → validate_and_consume_token hash db now raw_token client_ip ≡ (
        record db {
          tokens = update (has_hash (hash raw_token)) (mark_used hash now client_ip) db.tokens;
        },
        some (p.license_blob, p.name),
      )
  unfolding validate_and_consume_token
  redeem t p m = rw (m.stored) (
      consume-some hash db now client_ip (hash raw_token) t p m.unused m.in_time m.offered m.active)

  -- A call gives a license blob and a product name exactly when a token with the hash is stored,
  -- it is unused, its time has not passed, and its product is there and active; the two are that
  -- product's.
  pub validate_and_consume_token_iff :
      (r : String × String)
      → ((validate_and_consume_token hash db now raw_token client_ip).1 ≡ some r) ↔ (
          (t : Token) × (p : Product) × IsRedeemable db now (hash raw_token) t p
          × (r ≡ (p.license_blob, p.name)))
  validate_and_consume_token_iff r =
      ((λ e. redeem-inv e), (λ (t, p, m, e). ap (λ x. x.1) (redeem t p m) ∙ ap some (sym e)))

  -- A call that gives a license marks the token's row as used, at the call's time and address.
  pub redeem_marks :
      {r : String × String}
      → (validate_and_consume_token hash db now raw_token client_ip).1 ≡ some r
      → (t : Token) × (find (has_hash (hash raw_token)) db.tokens ≡ some t)
        × (find
              (has_hash (hash raw_token))
              (validate_and_consume_token hash db now raw_token client_ip).0.tokens
            ≡ some (mark_used hash now client_ip t))
  redeem_marks {r} e =
      let (t, p, m, _) = redeem-inv {r = r} e in
      let h = hash raw_token in
      (
        t,
        m.stored,
        rw (redeem t p m) (
            find-update (has_hash h) (has_hash h) (mark_used hash now client_ip) db.tokens
              (λ x. refl)
            ∙ rw m.stored (ground (arith, find-holds (has_hash h) db.tokens m.stored))),
      )

find_new :
    (hash : String → String) (tokens : List Token) (p : Product) (now i : ℕ) (raw_token : String)
    (instance_id : Option ℕ)
    → find (has_hash (hash raw_token)) tokens ≡ none
    → find (has_hash (hash raw_token)) (tokens ++ new_token hash p now i raw_token instance_id ∷ [])
      ≡ some (new_token hash p now i raw_token instance_id)
unfolding find
find_new hash tokens p now i raw_token instance_id h =
    find-append_none (has_hash (hash raw_token)) tokens _ h ∙ rw (eq_refl (hash raw_token))

known_still :
    (db : Db) (tokens : List Token) (i : ℕ)
    → {p : Product} → get_product db i ≡ some p
    → get_product (record db { tokens = tokens }) i ≡ some p
unfolding get_product
known_still db tokens i h = h

-- A fresh token of an active product is redeemed by anyone who presents it before its time to live
-- has passed, and gives that product's blob and name.
pub generate_token-validate_and_consume_token :
    (hash : String → String) (db : Db) (now later : ℕ) (raw_token client_ip : String) (i : ℕ)
    (instance_id : Option ℕ) {p : Product}
    → get_product db i ≡ some p
    → p.is_active ≡ true
    → find (has_hash (hash raw_token)) db.tokens ≡ none
    → later ≤ now + seconds p.token_ttl
    → ((generate_token hash db now raw_token i instance_id).1 ≡ ok raw_token)
      × ((validate_and_consume_token hash
            (generate_token hash db now raw_token i instance_id).0
            later
            raw_token
            client_ip).1
          ≡ some (p.license_blob, p.name))
unfolding generate_token
generate_token-validate_and_consume_token hash db now later raw_token client_ip i instance_id {p}
      known active fresh in_time =
    let t = new_token hash p now i raw_token instance_id in
    rw (known, fresh)
      (
        refl,
        ap (λ x. x.1)
            (redeem hash _ later raw_token client_ip t p (record {
              stored = find_new hash db.tokens p now i raw_token instance_id fresh;
              unused = refl;
              in_time = in_time;
              offered = known_still db _ i known;
              active = active;
            })),
      )

-- Redeeming touches at most the tokens, and those only by marking.
pub redeem-rest :
    (hash : String → String) (db : Db) (now : ℕ) (raw client_ip : String)
    → let db' = (validate_and_consume_token hash db now raw client_ip).0 in
      ((db'.tokens ≡ db.tokens)
        ⊎ (db'.tokens ≡ update (has_hash (hash raw)) (mark_used hash now client_ip) db.tokens))
      × (db'.products ≡ db.products)
      × (db'.slots ≡ db.slots)
      × (db'.next_product_id ≡ db.next_product_id)
unfolding validate_and_consume_token
redeem-rest hash db now raw client_ip = (ground arith, ground arith, ground arith, ground arith)

pub generate_token-rest :
    (hash : String → String) (db : Db) (now : ℕ) (raw : String) (i : ℕ) (instance_id : Option ℕ)
    → let db' = (generate_token hash db now raw i instance_id).0 in
      (db'.products ≡ db.products)
      × (db'.slots ≡ db.slots)
      × (db'.next_product_id ≡ db.next_product_id)
unfolding generate_token
generate_token-rest hash db now raw i instance_id = (ground arith, ground arith, ground arith)
