-- ===== src/License/Slots/Queue.antt =====
-- What `acquire_slot`, `release_slot` and the reaper promise an installer.
use cyberx_event_mgmt.Base.{
  ℕ, ◌+◌, ◌≤◌, ◌<◌, ◌≡◌, refl, ap, sym, ◌∙◌, String, none, some, true, false, ◌⊎◌, inl, inr, arith,
  ltb→lt, Bool-cases, ltb, All, find, find-update, find-append_none, subst, str_eq, [], ◌∷◌, ℤ, ok,
}
use cyberx_event_mgmt.License.Data.{Product, Slot, Db, get_product, is_active_slot, active_slots}
use cyberx_event_mgmt.License.Slots.{
  granted, wait, reap_product, insert_slot, acquire_slot, release_slot, has_slot_id, is_expired,
  expire, new_slot, close_slot,
}
use cyberx_event_mgmt.License.Slots.Bounds.{
  get_product-id, active_slots-reap_product, active_slots-insert_slot_suc,
  active_slots-release_slot_lt, active_slots-reap_product_zero,
}

-- A slot is granted below the limit and refused at it.
insert_slot_granted :
    (db : Db) (now : ℕ) (slot_id : String) (p : Product) (i n : ℕ) (hostname ip : String)
    → n < p.max_concurrent
    → find (has_slot_id slot_id) db.slots ≡ none
    → (insert_slot db now slot_id p i n hostname ip).1
      ≡ ok (granted slot_id (n + 1) p.max_concurrent)
unfolding insert_slot
insert_slot_granted db now slot_id p i n hostname ip h f = ground arith

insert_slot_wait :
    (db : Db) (now : ℕ) (slot_id : String) (p : Product) (i n : ℕ) (hostname ip : String)
    → p.max_concurrent ≤ n
    → insert_slot db now slot_id p i n hostname ip ≡ (db, ok (wait n p.max_concurrent 30))
unfolding insert_slot
insert_slot_wait db now slot_id p i n hostname ip h = ground arith

-- The handler of a known product, after the reaping.
acquire_slot-known :
    (db : Db) (now : ℕ) (slot_id : String) (i : ℕ) (hostname ip : String) {p : Product}
    → get_product db i ≡ some p
    → acquire_slot db now slot_id i hostname ip
      ≡ insert_slot
          (reap_product db now p).0
          now
          slot_id
          p
          i
          (active_slots (reap_product db now p).0 i)
          hostname
          ip
unfolding acquire_slot
acquire_slot-known db now slot_id i hostname ip known = rw known

fresh-reap_product :
    (db : Db) (now : ℕ) (p : Product) (slot_id : String)
    → find (has_slot_id slot_id) db.slots ≡ none
    → find (has_slot_id slot_id) (reap_product db now p).0.slots ≡ none
unfolding reap_product
fresh-reap_product db now p slot_id h =
    rw (find-update (is_expired p now) (has_slot_id slot_id) (expire now) db.slots (λ s. refl), h)

-- For a known product and an unused slot id, with n the product's active slots after the reaping
-- of expired ones: if n is below `max_concurrent` the slot is granted, the reply counts n + 1
-- active slots and so many there are; otherwise the reply is to wait for 30 seconds and nothing
-- beyond the reaping has changed.
pub acquire_slot_decision :
    (db : Db) (now : ℕ) (slot_id : String) (i : ℕ) (hostname ip : String) {p : Product}
    → get_product db i ≡ some p
    → find (has_slot_id slot_id) db.slots ≡ none
    → let n = active_slots (reap_product db now p).0 i in
      let r = acquire_slot db now slot_id i hostname ip in
      ((n < p.max_concurrent)
        × (r.1 ≡ ok (granted slot_id (n + 1) p.max_concurrent))
        × (active_slots r.0 i ≡ n + 1))
      ⊎ ((p.max_concurrent ≤ n)
          × (r ≡ ((reap_product db now p).0, ok (wait n p.max_concurrent 30))))
acquire_slot_decision db now slot_id i hostname ip {p} known fresh =
    let db' = (reap_product db now p).0 in
    let n = active_slots db' i in
    rw (acquire_slot-known db now slot_id i hostname ip known)
      (elim (Bool-cases (ltb n p.max_concurrent)) [
        | inl below ↦ inl (
          ltb→lt n p.max_concurrent below,
          insert_slot_granted db' now slot_id p i n hostname ip (ltb→lt n p.max_concurrent below)
              (fresh-reap_product db now p slot_id fresh),
          active_slots-insert_slot_suc db' now slot_id p i n hostname ip
              (ltb→lt n p.max_concurrent below) (fresh-reap_product db now p slot_id fresh),
        )
        | inr full ↦
            inr (ground arith, insert_slot_wait db' now slot_id p i n hostname ip (ground arith))
      ])

get_product-release_slot :
    (db : Db) (now : ℕ) (old result : String) (elapsed : ℤ) (i : ℕ)
    → get_product (release_slot db now old result elapsed).0 i ≡ get_product db i
unfolding get_product release_slot
get_product-release_slot db now old result elapsed i = ground arith

fresh-release_slot :
    (db : Db) (now : ℕ) (old result : String) (elapsed : ℤ) (slot_id : String)
    → find (has_slot_id slot_id) db.slots ≡ none
    → find (has_slot_id slot_id) (release_slot db now old result elapsed).0.slots ≡ none
unfolding release_slot
fresh-release_slot db now old result elapsed slot_id h = ground (
  arith,
  find-update (has_slot_id old) (has_slot_id slot_id) (close_slot now result elapsed) db.slots
      (λ s. refl),
)

fresh-insert_slot :
    (db : Db) (now : ℕ) (first second : String) (p : Product) (i n : ℕ) (hostname ip : String)
    → find (has_slot_id second) db.slots ≡ none
    → str_eq first second ≡ false
    → find (has_slot_id second) (insert_slot db now first p i n hostname ip).0.slots ≡ none
unfolding insert_slot find
fresh-insert_slot db now first second p i n hostname ip h d = ground (
  arith,
  find-append_none (has_slot_id second) db.slots (new_slot now first i hostname ip ∷ []) h,
)

-- If every active slot of a known product has expired and `max_concurrent` is not 0, an installer
-- with an unused slot id is granted the slot, and holds the only active one: crashed installers
-- cannot block the queue for longer than the time to live.
pub acquire_slot_after_expiry :
    (db : Db) (now : ℕ) (slot_id : String) (i : ℕ) (hostname ip : String) {p : Product}
    → get_product db i ≡ some p
    → find (has_slot_id slot_id) db.slots ≡ none
    → 0 < p.max_concurrent
    → All (λ s. is_active_slot i s ≡ true → is_expired p now s ≡ true) db.slots
    → let r = acquire_slot db now slot_id i hostname ip in
      (r.1 ≡ ok (granted slot_id 1 p.max_concurrent)) × (active_slots r.0 i ≡ 1)
acquire_slot_after_expiry db now slot_id i hostname ip {p} known fresh room expired =
    let none_left : active_slots (reap_product db now p).0 i ≡ 0 =
      subst (λ j. active_slots (reap_product db now p).0 j ≡ 0) (get_product-id db i known)
        (active_slots-reap_product_zero db now p (
          subst (λ j. All (λ s. is_active_slot j s ≡ true → is_expired p now s ≡ true) db.slots)
            (sym (get_product-id db i known)) expired)) in
    elim (acquire_slot_decision db now slot_id i hostname ip known fresh) [
      | inl (below, reply, counted) ↦
          (reply ∙ ap (λ n. ok (granted slot_id (n + 1) p.max_concurrent)) none_left, omega arith)
      | inr (full, rest) ↦ absurd (omega arith)
    ]

-- When a queue that is not over its limit has an active slot of the product, releasing that slot
-- lets the next installer with an unused slot id in.
pub release_slot-acquire_slot :
    (db : Db) (now : ℕ) (old result : String) (elapsed : ℤ) (later : ℕ) (slot_id : String) (i : ℕ)
    (hostname ip : String) {p : Product} {s : Slot}
    → get_product db i ≡ some p
    → active_slots db i ≤ p.max_concurrent
    → find (has_slot_id old) db.slots ≡ some s
    → is_active_slot i s ≡ true
    → find (has_slot_id slot_id) db.slots ≡ none
    → (n : ℕ) × ((acquire_slot
          (release_slot db now old result elapsed).0
          later
          slot_id
          i
          hostname
          ip).1
        ≡ ok (granted slot_id n p.max_concurrent))
      × (n ≤ p.max_concurrent)
release_slot-acquire_slot db now old result elapsed later slot_id i hostname ip {p} {s} known within
      found active fresh =
    let db' = (release_slot db now old result elapsed).0 in
    elim (acquire_slot_decision db' later slot_id i hostname ip {p = p}
      (get_product-release_slot db now old result elapsed i ∙ known)
      (fresh-release_slot db now old result elapsed slot_id fresh)) [
        | inl (below, reply, counted) ↦
            (active_slots (reap_product db' later p).0 i + 1, reply, omega arith)
        | inr (full, rest) ↦ absurd (
            omega (
              arith,
              active_slots-reap_product db' later p i,
              active_slots-release_slot_lt db now old result elapsed i {s = s} found active,
            ))
      ]

-- Two requests that both read the count before either inserts are both granted, and the queue is
-- over its limit: for every state of a known product with one place left and two unused slot ids.
pub acquire_slot_race :
    (db : Db) (now : ℕ) (first second : String) (p : Product) (i : ℕ) (hostname ip : String)
    → active_slots db i + 1 ≡ p.max_concurrent
    → find (has_slot_id first) db.slots ≡ none
    → find (has_slot_id second) db.slots ≡ none
    → str_eq first second ≡ false
    → let n = active_slots db i in
      let db' = (insert_slot db now first p i n hostname ip).0 in
      let r = insert_slot db' now second p i n hostname ip in
      (r.1 ≡ ok (granted second p.max_concurrent p.max_concurrent))
      × (active_slots r.0 i ≡ p.max_concurrent + 1)
acquire_slot_race db now first second p i hostname ip last fresh_first fresh_second distinct =
    let n = active_slots db i in
    let db' = (insert_slot db now first p i n hostname ip).0 in
    let fresh : find (has_slot_id second) db'.slots ≡ none =
      fresh-insert_slot db now first second p i n hostname ip fresh_second distinct in
    (
      insert_slot_granted db' now second p i n hostname ip (omega arith) fresh
          ∙ ap (λ m. ok (granted second m p.max_concurrent)) last,
      omega (
        arith,
        active_slots-insert_slot_suc db now first p i n hostname ip (omega arith) fresh_first,
        active_slots-insert_slot_suc db' now second p i n hostname ip (omega arith) fresh,
      ),
    )
