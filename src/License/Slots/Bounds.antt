-- ===== src/License/Slots/Bounds.antt =====
-- How the slot operations change the number of active slots.
use cyberx_event_mgmt.Base.{
  ℕ, suc, ◌+◌, ◌≤◌, ◌<◌, ◌≡◌, refl, String, none, some, true, List, [], ◌∷◌, ◌⊎◌, arith, ==→eq,
  find-holds, All, count-update-lt, count-update_self, find, count, count-append, count-update-le,
  select, ℤ,
}
use cyberx_event_mgmt.License.Data.{
  Product, Slot, Db, is_product, get_product, is_active_slot, active_slots,
}
use cyberx_event_mgmt.License.Slots.{
  reap_product, reap_all, reap_expired_slots, insert_slot, release_slot, has_slot_id, new_slot,
  is_expired, expire, close_slot,
}

pub get_product-id : (db : Db) (i : ℕ) {p : Product} → get_product db i ≡ some p → p.id ≡ i
unfolding get_product
get_product-id db i {p} h = ==→eq p.id i (find-holds (is_product i) db.products h)

pub active_slots-reap_product :
    (db : Db) (now : ℕ) (p : Product) (i : ℕ)
    → active_slots (reap_product db now p).0 i ≤ active_slots db i
unfolding active_slots reap_product
active_slots-reap_product db now p i =
    count-update-le (is_expired p now) (is_active_slot i) (expire now) db.slots
      (λ s e a. ground arith)

active_slots-reap_all :
    (db : Db) (now : ℕ) (ps : List Product) (i : ℕ)
    → active_slots (reap_all db now ps).0 i ≤ active_slots db i
unfolding reap_all
active_slots-reap_all db now [] i = omega arith
active_slots-reap_all db now (p ∷ ps) i = omega (
  arith,
  active_slots-reap_product db now p i,
  active_slots-reap_all (reap_product db now p).0 now ps i,
)

pub active_slots-release_slot :
    (db : Db) (now : ℕ) (slot_id result : String) (elapsed : ℤ) (i : ℕ)
    → active_slots (release_slot db now slot_id result elapsed).0 i ≤ active_slots db i
unfolding active_slots release_slot
active_slots-release_slot db now slot_id result elapsed i = ground (
  arith,
  count-update-le (has_slot_id slot_id) (is_active_slot i) (close_slot now result elapsed) db.slots
      (λ s e a. ground arith),
)

-- A slot is inserted for its product alone, and only below the limit that was compared.
pub active_slots-insert_slot :
    (db : Db) (now : ℕ) (slot_id : String) (p : Product) (i n : ℕ) (hostname ip : String) (j : ℕ)
    → (active_slots (insert_slot db now slot_id p i n hostname ip).0 j ≡ active_slots db j)
      ⊎ ((i ≡ j)
          × (n < p.max_concurrent)
          × (active_slots (insert_slot db now slot_id p i n hostname ip).0 j
              ≡ suc (active_slots db j)))
unfolding active_slots insert_slot count
active_slots-insert_slot db now slot_id p i n hostname ip j =
    ground
      (arith, count-append (is_active_slot j) db.slots (new_slot now slot_id i hostname ip ∷ []))

pub active_slots-reap_expired_slots :
    (db : Db) (now i : ℕ) → active_slots (reap_expired_slots db now).0 i ≤ active_slots db i
unfolding reap_expired_slots
active_slots-reap_expired_slots db now i =
    active_slots-reap_all db now (select (λ p. p.is_active) db.products) i

-- An active slot that is released leaves the count.
pub active_slots-release_slot_lt :
    (db : Db) (now : ℕ) (slot_id result : String) (elapsed : ℤ) (i : ℕ) {s : Slot}
    → find (has_slot_id slot_id) db.slots ≡ some s
    → is_active_slot i s ≡ true
    → active_slots (release_slot db now slot_id result elapsed).0 i < active_slots db i
unfolding active_slots release_slot
active_slots-release_slot_lt db now slot_id result elapsed i {s} h a = ground (
  arith,
  count-update-lt (has_slot_id slot_id) (is_active_slot i) (close_slot now result elapsed) db.slots
      {x = s} h a (λ s. ground arith),
)

-- Where all active slots of the product are past its time limit, none is left.
pub active_slots-reap_product_zero :
    (db : Db) (now : ℕ) (p : Product)
    → All (λ s. is_active_slot p.id s ≡ true → is_expired p now s ≡ true) db.slots
    → active_slots (reap_product db now p).0 p.id ≡ 0
unfolding active_slots reap_product
active_slots-reap_product_zero db now p h =
    count-update_self (is_active_slot p.id) (is_expired p now) (expire now) db.slots h
      (λ s. ground arith)

pub active_slots-insert_slot_suc :
    (db : Db) (now : ℕ) (slot_id : String) (p : Product) (i n : ℕ) (hostname ip : String)
    → n < p.max_concurrent
    → find (has_slot_id slot_id) db.slots ≡ none
    → active_slots (insert_slot db now slot_id p i n hostname ip).0 i ≡ active_slots db i + 1
unfolding active_slots insert_slot count
active_slots-insert_slot_suc db now slot_id p i n hostname ip h f =
    ground
      (arith, count-append (is_active_slot i) db.slots (new_slot now slot_id i hostname ip ∷ []))

-- The reaper touches nothing but slots.
reap_all-rest :
    (db : Db) (now : ℕ) (ps : List Product)
    → ((reap_all db now ps).0.tokens ≡ db.tokens)
      × ((reap_all db now ps).0.products ≡ db.products)
      × ((reap_all db now ps).0.next_product_id ≡ db.next_product_id)
unfolding reap_all reap_product
reap_all-rest db now [] = (refl, refl, refl)
reap_all-rest db now (p ∷ ps) = reap_all-rest (reap_product db now p).0 now ps

pub reap_expired_slots-rest :
    (db : Db) (now : ℕ)
    → ((reap_expired_slots db now).0.tokens ≡ db.tokens)
      × ((reap_expired_slots db now).0.products ≡ db.products)
      × ((reap_expired_slots db now).0.next_product_id ≡ db.next_product_id)
unfolding reap_expired_slots
reap_expired_slots-rest db now = reap_all-rest db now (select (λ p. p.is_active) db.products)
