-- ===== src/License/History/SingleUse.antt =====
-- A token is redeemed at most once.
use cyberx_event_mgmt.Base.{
  ℕ, String, Option, none, some, Bool, true, List, [], ◌∷◌, ◌≡◌, refl, ◌∙◌, arith, inl, inr,
  Option-cases, All, find, update, find-update, find-append_some, if◌then◌else◌, ℤ,
}
use cyberx_event_mgmt.License.Data.{Token, Db, get_product}
use cyberx_event_mgmt.License.Products.{NewProduct, ProductPatch, create_product, update_product}
use cyberx_event_mgmt.License.Tokens.{
  has_hash, mark_used, generate_token, validate_and_consume_token,
}
use cyberx_event_mgmt.License.Tokens.Redemption.{
  redeem_marks, validate_and_consume_token_iff, redeem-rest,
}
use cyberx_event_mgmt.License.Slots.{acquire_slot, release_slot}
use cyberx_event_mgmt.License.Slots.Bounds.{reap_expired_slots-rest}
use cyberx_event_mgmt.License.History.{
  Call, creates, updates, deletes, generates, redeems, acquires, releases, reaps, step, run,
}

-- A used token with this hash is stored.
pub record IsSpent (h : String) (db : Db) : Type 0 where
  pub token : Token
  pub stored : find (has_hash h) db.tokens ≡ some token
  pub used : token.used ≡ true

abbrev pub KeepsProducts : ℕ × Call → Type 0
KeepsProducts (now, deletes i) = ⊥
KeepsProducts (now, _) = Unit

IsSpent-tokens : (h : String) (db db' : Db) → db'.tokens ≡ db.tokens → IsSpent h db → IsSpent h db'
IsSpent-tokens h db db' e s = record { token = s.token; stored = rw e s.stored; used = s.used }

tokens-create : (db : Db) (new : NewProduct) → (create_product db new).0.tokens ≡ db.tokens
unfolding create_product
tokens-create db new = ground arith

tokens-update : (db : Db) (i : ℕ) (k : ProductPatch) → (update_product db i k).0.tokens ≡ db.tokens
unfolding update_product
tokens-update db i k = ground arith

tokens-acquire :
    (db : Db) (now : ℕ) (slot_id : String) (i : ℕ) (hostname ip : String)
    → (acquire_slot db now slot_id i hostname ip).0.tokens ≡ db.tokens
unfolding acquire_slot
tokens-acquire db now slot_id i hostname ip = ground arith

tokens-release :
    (db : Db) (now : ℕ) (slot_id result : String) (elapsed : ℤ)
    → (release_slot db now slot_id result elapsed).0.tokens ≡ db.tokens
unfolding release_slot
tokens-release db now slot_id result elapsed = ground arith

module _ (hash : String → String) (h : String) where
  generate_token-IsSpent :
      (db : Db) (now : ℕ) (raw : String) (i : ℕ) (instance_id : Option ℕ)
      → IsSpent h db
      → IsSpent h (generate_token hash db now raw i instance_id).0
  unfolding generate_token
  generate_token-IsSpent db now raw i instance_id s = elim (Option-cases (get_product db i)) [
    | inl e ↦ rw (e, generate_token) s
    | inr (p, e) ↦ elim (Option-cases (find (has_hash (hash raw)) db.tokens)) [
      | inl fresh ↦
          rw (e, fresh)
            (record {
              token = s.token;
              stored = find-append_some (has_hash h) db.tokens _ s.stored;
              used = s.used;
            })
      | inr (t, taken) ↦ rw (e, taken) s
    ]
  ]

  marked-IsSpent :
      (db : Db) (p : Token → Bool) (now : ℕ) (ip : String)
      → IsSpent h db
      → IsSpent h (record db { tokens = update p (mark_used hash now ip) db.tokens })
  marked-IsSpent db p now ip s = record {
    token = if p s.token then mark_used hash now ip s.token else s.token;
    stored = find-update p (has_hash h) (mark_used hash now ip) db.tokens (λ t. refl) ∙ rw s.stored;
    used = ground (arith, s.used);
  }

  redeem-IsSpent :
      (db : Db) (now : ℕ) (raw ip : String)
      → IsSpent h db
      → IsSpent h (validate_and_consume_token hash db now raw ip).0
  redeem-IsSpent db now raw ip s = elim (redeem-rest hash db now raw ip).0 [
    | inl same ↦ IsSpent-tokens h db _ same s
    | inr marked ↦ IsSpent-tokens h _ _ marked (marked-IsSpent db (has_hash (hash raw)) now ip s)
  ]

  step-IsSpent :
      (db : Db) (c : ℕ × Call) → KeepsProducts c → IsSpent h db → IsSpent h (step hash db c)
  unfolding step
  step-IsSpent db (now, creates new) k s = IsSpent-tokens h db _ (tokens-create db new) s
  step-IsSpent db (now, updates i patch) k s = IsSpent-tokens h db _ (tokens-update db i patch) s
  step-IsSpent db (now, deletes i) k s = absurd k
  step-IsSpent db (now, generates raw i instance_id) k s =
      generate_token-IsSpent db now raw i instance_id s
  step-IsSpent db (now, redeems raw ip) k s = redeem-IsSpent db now raw ip s
  step-IsSpent db (now, acquires slot_id i hostname ip) k s =
      IsSpent-tokens h db _ (tokens-acquire db now slot_id i hostname ip) s
  step-IsSpent db (now, releases slot_id result elapsed) k s =
      IsSpent-tokens h db _ (tokens-release db now slot_id result elapsed) s
  step-IsSpent db (now, reaps) k s = IsSpent-tokens h db _ (reap_expired_slots-rest db now).0 s

  run-IsSpent :
      (db : Db) (cs : List (ℕ × Call))
      → All KeepsProducts cs
      → IsSpent h db
      → IsSpent h (run hash db cs)
  unfolding run
  run-IsSpent db [] k s = s
  run-IsSpent db (c ∷ cs) (k, ks) s = run-IsSpent (step hash db c) cs ks (step-IsSpent db c k s)

-- Once a token has given a license, no later call with it does, whatever calls at whatever times
-- come between, as long as none of them deletes a product.
pub validate_and_consume_token_once :
    (hash : String → String) (db : Db) (now later : ℕ) (raw_token ip other_ip : String)
    (cs : List (ℕ × Call)) {r : String × String}
    → (validate_and_consume_token hash db now raw_token ip).1 ≡ some r
    → All KeepsProducts cs
    → (validate_and_consume_token hash
        (run hash (validate_and_consume_token hash db now raw_token ip).0 cs)
        later
        raw_token
        other_ip).1
      ≡ none
validate_and_consume_token_once hash db now later raw_token ip other_ip cs {r} e keeps =
    let db' = (validate_and_consume_token hash db now raw_token ip).0 in
    let end = run hash db' cs in
    let (t, _, marked) = redeem_marks hash db now raw_token ip {r = r} e in
    let spent =
      run-IsSpent hash (hash raw_token) db' cs keeps
        (record { token = mark_used hash now ip t; stored = marked; used = refl }) in
    elim (Option-cases (validate_and_consume_token hash end later raw_token other_ip).1) [
      | inl refused ↦ refused
      | inr (r', given) ↦
          let (u, p, m, _) =
            (validate_and_consume_token_iff hash end later raw_token other_ip r').0 given in
          absurd (cc (spent.stored, m.stored, spent.used, m.unused))
    ]
