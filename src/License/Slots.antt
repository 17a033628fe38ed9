-- ===== src/License/Slots.antt =====
-- The concurrency queue of installation slots. `acquire_slot` reads the count of active slots
-- and then inserts (`insert_slot`), with no lock between the two. The random
-- slot id of `secrets.token_urlsafe` is an argument; the slot's `acquired_at` is the server's time.
pub mod Bounds
pub mod Queue
use cyberx_event_mgmt.Base.{
  ℕ, ◌+◌, ◌-◌, String, Option, none, some, Bool, true, false, ◌&&◌, List, [], ◌∷◌, ◌++◌, str_eq,
  ◌==◌, if◌then◌else◌, is_some, ltb, seconds, ℤ, find, select, update, count, Result, ok, raised,
  integrity_error,
}
use cyberx_event_mgmt.License.Data.{Product, Slot, Db, get_product, active_slots}

pub data Reply : Type 0 where
  granted : String → ℕ → ℕ → Reply
  wait : ℕ → ℕ → ℕ → Reply
  error : ℕ → Reply

-- The slots that `_reap_expired_slots_for_product` selects. The cutoff `now - ttl` may lie before
-- the epoch, where no `acquired_at` is, as it is under the subtraction that stops at 0.
abbrev pub is_expired : Product → ℕ → Slot → Bool
is_expired p now s =
    (s.product_id == p.id && s.is_active) && ltb s.acquired_at (now - seconds p.slot_ttl)

abbrev pub expire : ℕ → Slot → Slot
expire now s = record s { is_active = false; released_at = some now; result = some "expired" }

unfoldable pub reap_product : Db → ℕ → Product → Db × ℕ
reap_product db now p = (
  record db { slots = update (is_expired p now) (expire now) db.slots },
  count (is_expired p now) db.slots,
)

pub reap_all : Db → ℕ → List Product → Db × ℕ
unfolding reap_product
reap_all db now [] = (db, 0)
reap_all db now (p ∷ ps) =
    let (db', n) = reap_product db now p in let (db'', m) = reap_all db' now ps in (db'', n + m)

-- `reap_expired_slots`, over the active products.
unfoldable pub reap_expired_slots : Db → ℕ → Db × ℕ
unfolding reap_all
reap_expired_slots db now = reap_all db now (select (λ p. p.is_active) db.products)

abbrev pub has_slot_id : String → Slot → Bool
has_slot_id slot_id s = str_eq s.slot_id slot_id

abbrev pub new_slot : ℕ → String → ℕ → String → String → Slot
new_slot now slot_id product_id hostname ip = record {
  slot_id = slot_id;
  product_id = product_id;
  hostname = hostname;
  ip_address = ip;
  acquired_at = now;
  released_at = none;
  result = none;
  elapsed_seconds = none;
  is_active = true;
}

-- The second half of `acquire_slot`, with the count that the first half read. A slot id that is
-- taken fails the commit.
unfoldable pub insert_slot : Db → ℕ → String → Product → ℕ → ℕ → String → String → Db × Result Reply
insert_slot db now slot_id p product_id active_count hostname ip =
    if ltb active_count p.max_concurrent
    then (if is_some (find (has_slot_id slot_id) db.slots) then (db, raised integrity_error) else (
      record db { slots = db.slots ++ new_slot now slot_id product_id hostname ip ∷ [] },
      ok (granted slot_id (active_count + 1) p.max_concurrent),
    ))
    else (db, ok (wait active_count p.max_concurrent 30))

acquire : Db → ℕ → String → ℕ → String → String → Option Product → Db × Result Reply
unfolding insert_slot reap_product
acquire db now slot_id product_id hostname ip none = (db, ok (error product_id))
acquire db now slot_id product_id hostname ip (some p) =
    let db' = (reap_product db now p).0 in
    insert_slot db' now slot_id p product_id (active_slots db' product_id) hostname ip

unfoldable pub acquire_slot : Db → ℕ → String → ℕ → String → String → Db × Result Reply
unfolding acquire
acquire_slot db now slot_id product_id hostname ip =
    acquire db now slot_id product_id hostname ip (get_product db product_id)

abbrev pub close_slot : ℕ → String → ℤ → Slot → Slot
close_slot now result elapsed s = record s {
  is_active = false;
  released_at = some now;
  result = some result;
  elapsed_seconds = some elapsed;
}

unfoldable pub release_slot : Db → ℕ → String → String → ℤ → Db × Bool
release_slot db now slot_id result elapsed =
    if is_some (find (has_slot_id slot_id) db.slots)
    then (
      record db { slots = update (has_slot_id slot_id) (close_slot now result elapsed) db.slots },
      true,
    )
    else (db, false)
