-- ===== src/License/History/Limits.antt =====
-- No product ever has more active slots than its limit.
use cyberx_event_mgmt.Base.{
  ℕ, ◌≤◌, ◌<◌, String, none, some, List, [], ◌∷◌, ◌++◌, ◌⊎◌, ℕ_discrete, subst, count, str_eq, ◌≡◌,
  refl, sym, ap, ◌∙◌, arith, inl, inr, Option-cases, All, find, update, delete, find-update,
  find-append_some, find-append_none, count-delete-le, find-delete_self, find-delete_other, ◌==◌,
}
use cyberx_event_mgmt.License.Data.{
  Product, Db, is_product, get_product, is_active_slot, active_slots,
}
use cyberx_event_mgmt.License.Products.{
  NewProduct, ProductPatch, patch_product, create_product, update_product, delete_product,
}
use cyberx_event_mgmt.License.Tokens.Redemption.{redeem-rest, generate_token-rest}
use cyberx_event_mgmt.License.Slots.{acquire_slot, release_slot, reap_product, insert_slot}
use cyberx_event_mgmt.License.Slots.Bounds.{
  reap_expired_slots-rest, active_slots-reap_expired_slots, active_slots-release_slot,
  active_slots-reap_product, active_slots-insert_slot,
}
use cyberx_event_mgmt.License.History.{
  Call, creates, updates, deletes, generates, redeems, acquires, releases, reaps, step, run,
}

-- Every active slot belongs to a product number that was given out, and no product has more active
-- slots than its limit.
pub record IsWithin (db : Db) : Type 0 where
  pub owned : (i : ℕ) → db.next_product_id ≤ i → active_slots db i ≡ 0
  pub known : (i : ℕ) (p : Product) → get_product db i ≡ some p → i < db.next_product_id
  pub within :
      (i : ℕ) (p : Product) → get_product db i ≡ some p → active_slots db i ≤ p.max_concurrent

abbrev pub KeepsLimit : ℕ × Call → Type 0
KeepsLimit (now, updates i k) = k.max_concurrent ≡ none
KeepsLimit (now, _) = Unit

-- A call that changes no product and adds no active slot keeps the bound.
IsWithin-le :
    (db db' : Db)
    → db'.products ≡ db.products
    → db'.next_product_id ≡ db.next_product_id
    → ((i : ℕ) → active_slots db' i ≤ active_slots db i)
    → IsWithin db
    → IsWithin db'
unfolding get_product
IsWithin-le db db' e n le w = record {
  owned = λ i h. omega (arith, le i, w.owned i (omega arith));
  known = λ i p h. omega (arith, w.known i p (rw (← e) h));
  within = λ i p h. omega (arith, le i, w.within i p (rw (← e) h));
}

active_slots-same :
    (db db' : Db) → db'.slots ≡ db.slots → (i : ℕ) → active_slots db' i ≤ active_slots db i
unfolding active_slots
active_slots-same db db' e i = rw e (omega arith)

-- A product that is added is found under its own number, and the others as before.
get_product-append :
    (products : List Product) (q : Product) (i : ℕ) (p : Product)
    → find (is_product i) (products ++ q ∷ []) ≡ some p
    → (find (is_product i) products ≡ some p) ⊎ (q.id ≡ i)
unfolding find
get_product-append products q i p h = elim (Option-cases (find (is_product i) products)) [
  | inl missing ↦ ground (arith, find-append_none (is_product i) products (q ∷ []) missing)
  | inr (r, found) ↦ ground (arith, find-append_some (is_product i) products (q ∷ []) found)
]

create_product-IsWithin :
    (db : Db) (new : NewProduct) → IsWithin db → IsWithin (create_product db new).0
unfolding create_product get_product active_slots
create_product-IsWithin db new w =
    elim (Option-cases (find (λ p. str_eq p.name new.name) db.products)) [
      | inr (q, taken) ↦ rw (taken, create_product) w
      | inl free ↦
          rw (free, create_product)
            (record {
              owned = λ i h. w.owned i (omega arith);
              known = λ i p h. ground (arith, get_product-append db.products _ i p h, w.known i p);
              within = λ i p h. elim (get_product-append db.products _ i p h) [
                | inl old ↦ w.within i p old
                | inr same ↦ omega (arith, w.owned i (omega arith))
              ];
            })
    ]

patch_limit :
    (k : ProductPatch) (p : Product)
    → k.max_concurrent ≡ none
    → (patch_product k p).max_concurrent ≡ p.max_concurrent
unfolding patch_product
patch_limit k p e = ground arith

-- What the update leaves under a number is the old product or its patched version.
get_product-update :
    (products : List Product) (j : ℕ) (k : ProductPatch) (i : ℕ) (p : Product)
    → find (is_product i) (update (is_product j) (patch_product k) products) ≡ some p
    → (q : Product) × (find (is_product i) products ≡ some q) × ((p ≡ q) ⊎ (p ≡ patch_product k q))
unfolding patch_product
get_product-update products j k i p h =
    let e = find-update (is_product j) (is_product i) (patch_product k) products (λ q. refl) in
    elim (Option-cases (find (is_product i) products)) [
      | inl missing ↦ absurd (cc (rw missing at e, h))
      | inr (q, found) ↦ (q, found, ground (arith, e))
    ]

update_product-rest :
    (db : Db) (j : ℕ) (k : ProductPatch)
    → let db' = (update_product db j k).0 in
      ((db'.products ≡ db.products)
        ⊎ (db'.products ≡ update (is_product j) (patch_product k) db.products))
      × (db'.slots ≡ db.slots)
      × (db'.next_product_id ≡ db.next_product_id)
unfolding update_product
update_product-rest db j k = (ground arith, ground arith, ground arith)

patched-IsWithin :
    (db : Db) (j : ℕ) (k : ProductPatch)
    → k.max_concurrent ≡ none
    → IsWithin db
    → IsWithin (record db { products = update (is_product j) (patch_product k) db.products })
unfolding get_product active_slots
patched-IsWithin db j k e w = record {
  owned = w.owned;
  known = λ i p h. let (q, old, _) = get_product-update db.products j k i p h in w.known i q old;
  within = λ i p h.
      let (q, old, either) = get_product-update db.products j k i p h in
      ground (arith, either, w.within i q old, patch_limit k q e);
}

update_product-IsWithin :
    (db : Db) (j : ℕ) (k : ProductPatch)
    → k.max_concurrent ≡ none
    → IsWithin db
    → IsWithin (update_product db j k).0
unfolding get_product
update_product-IsWithin db j k e w =
    let (products, slots, next) = update_product-rest db j k in
    elim products [
      | inl same ↦
          IsWithin-le db (update_product db j k).0 same next
            (active_slots-same db (update_product db j k).0 slots) w
      | inr patched ↦
          let db' = record db { products = update (is_product j) (patch_product k) db.products } in
          IsWithin-le db' (update_product db j k).0 patched next
            (active_slots-same db' (update_product db j k).0 slots) (patched-IsWithin db j k e w)
    ]

delete_product-IsWithin : (db : Db) (j : ℕ) → IsWithin db → IsWithin (delete_product db j).0
unfolding delete_product get_product active_slots
delete_product-IsWithin db j w = elim (Option-cases (get_product db j)) [
  | inl missing ↦ rw (missing, delete_product) w
  | inr (q, found) ↦
      rw (found, delete_product)
        (record {
          owned = λ i h. omega (arith, w.owned i h, fewer i);
          known = λ i p h. w.known i p (kept i p h);
          within = λ i p h. omega (arith, w.within i p (kept i p h), fewer i);
        })
]
  where
    fewer :
        (i : ℕ)
        → count (is_active_slot i) (delete (λ s. s.product_id == j) db.slots)
          ≤ count (is_active_slot i) db.slots
    fewer i = count-delete-le (λ s. s.product_id == j) (is_active_slot i) db.slots

    kept :
        (i : ℕ) (p : Product)
        → find (is_product i) (delete (is_product j) db.products) ≡ some p
        → find (is_product i) db.products ≡ some p
    kept i p h = elim (ℕ_discrete i j) [
      | yes same ↦ absurd (
          cc (
            subst (λ m. find (is_product m) (delete (is_product j) db.products) ≡ some p) same h,
            find-delete_self (is_product j) db.products,
          ))
      | no other ↦
          sym (find-delete_other (is_product j) (is_product i) db.products (λ x e. ground arith))
          ∙ h
    ]

get_product-reap_product :
    (db : Db) (now : ℕ) (p : Product) (i : ℕ)
    → get_product (reap_product db now p).0 i ≡ get_product db i
unfolding get_product reap_product
get_product-reap_product db now p i = refl

reap_product-IsWithin :
    (db : Db) (now : ℕ) (p : Product) → IsWithin db → IsWithin (reap_product db now p).0
reap_product-IsWithin db now p w =
    IsWithin-le db (reap_product db now p).0 (unfold reap_product in refl)
      (unfold reap_product in refl) (active_slots-reap_product db now p) w

insert_slot-rest :
    (db : Db) (now : ℕ) (slot_id : String) (p : Product) (i n : ℕ) (hostname ip : String)
    → ((insert_slot db now slot_id p i n hostname ip).0.next_product_id ≡ db.next_product_id)
      × ((insert_slot db now slot_id p i n hostname ip).0.products ≡ db.products)
unfolding insert_slot
insert_slot-rest db now slot_id p i n hostname ip = (ground arith, ground arith)

insert_slot-IsWithin :
    (db : Db) (now : ℕ) (slot_id : String) (p : Product) (i : ℕ) (hostname ip : String)
    → get_product db i ≡ some p
    → IsWithin db
    → IsWithin (insert_slot db now slot_id p i (active_slots db i) hostname ip).0
unfolding get_product
insert_slot-IsWithin db now slot_id p i hostname ip found w =
    let n = active_slots db i in
    let (next, products) = insert_slot-rest db now slot_id p i n hostname ip in
    record {
      owned = λ j h. omega (
        arith,
        w.owned j (omega arith),
        w.known i p found,
        active_slots-insert_slot db now slot_id p i n hostname ip j,
      );
      known = λ j q h. omega (arith, w.known j q (rw (← products) h));
      within = λ j q h. elim (active_slots-insert_slot db now slot_id p i n hostname ip j) [
        | inl same ↦ omega (arith, same, w.within j q (rw (← products) h))
        | inr (mine, below, more) ↦
            let old : find (is_product j) db.products ≡ some q = rw (← products) h in
            let one : p ≡ q = cc (found, old, ap is_product mine) in
            omega (
              arith,
              more,
              below,
              ap (λ m. active_slots db m) mine,
              ap (λ (r : Product). r.max_concurrent) one,
            )
      ];
    }

acquire_slot-IsWithin :
    (db : Db) (now : ℕ) (slot_id : String) (i : ℕ) (hostname ip : String)
    → IsWithin db
    → IsWithin (acquire_slot db now slot_id i hostname ip).0
unfolding acquire_slot
acquire_slot-IsWithin db now slot_id i hostname ip w = elim (Option-cases (get_product db i)) [
  | inl missing ↦ rw (missing, acquire_slot) w
  | inr (p, found) ↦
      rw (found, acquire_slot)
        (insert_slot-IsWithin (reap_product db now p).0 now slot_id p i hostname ip
          (get_product-reap_product db now p i ∙ found) (reap_product-IsWithin db now p w))
]

module _ (hash : String → String) where
  step-IsWithin : (db : Db) (c : ℕ × Call) → KeepsLimit c → IsWithin db → IsWithin (step hash db c)
  unfolding step
  step-IsWithin db (now, creates new) k w = create_product-IsWithin db new w
  step-IsWithin db (now, updates i patch) k w = update_product-IsWithin db i patch k w
  step-IsWithin db (now, deletes i) k w = delete_product-IsWithin db i w
  step-IsWithin db (now, generates raw i instance_id) k w =
      let (p, s, n) = generate_token-rest hash db now raw i instance_id in
      IsWithin-le db _ p n (active_slots-same db _ s) w
  step-IsWithin db (now, redeems raw ip) k w =
      let (_, p, s, n) = redeem-rest hash db now raw ip in
      IsWithin-le db _ p n (active_slots-same db _ s) w
  step-IsWithin db (now, acquires slot_id i hostname ip) k w =
      acquire_slot-IsWithin db now slot_id i hostname ip w
  step-IsWithin db (now, releases slot_id result elapsed) k w =
      IsWithin-le db _ (unfold release_slot in ground arith) (unfold release_slot in ground arith)
        (active_slots-release_slot db now slot_id result elapsed) w
  step-IsWithin db (now, reaps) k w =
      let (_, p, n) = reap_expired_slots-rest db now in
      IsWithin-le db _ p n (active_slots-reap_expired_slots db now) w

  run-IsWithin :
      (db : Db) (cs : List (ℕ × Call)) → All KeepsLimit cs → IsWithin db → IsWithin (run hash db cs)
  unfolding run
  run-IsWithin db [] k w = w
  run-IsWithin db (c ∷ cs) (k, ks) w = run-IsWithin (step hash db c) cs ks (step-IsWithin db c k w)

abbrev pub empty : Db
empty = record { products = []; tokens = []; slots = []; next_product_id = 0 }

IsWithin-empty : IsWithin empty
unfolding get_product active_slots find count
IsWithin-empty = record { owned = λ i h. refl; known = λ i p h. cc; within = λ i p h. cc }

-- From an empty database, after any calls at any times of which no product update sets
-- `max_concurrent`, no product has more active slots than its limit.
pub run_limit :
    (hash : String → String) (cs : List (ℕ × Call)) (i : ℕ) {p : Product}
    → All KeepsLimit cs
    → get_product (run hash empty cs) i ≡ some p
    → active_slots (run hash empty cs) i ≤ p.max_concurrent
run_limit hash cs i {p} k found = (run-IsWithin hash empty cs k IsWithin-empty).within i p found
