-- ===== src/License/History.antt =====
-- The license service as a whole: each call with its time and its random values, and the database
-- after a sequence of calls.
pub mod Limits
pub mod SingleUse
pub mod Examples
use cyberx_event_mgmt.Base.{ℕ, String, Option, List, [], ◌∷◌, ℤ}
use cyberx_event_mgmt.License.Data.{Db}
use cyberx_event_mgmt.License.Products.{
  NewProduct, ProductPatch, create_product, update_product, delete_product,
}
use cyberx_event_mgmt.License.Tokens.{generate_token, validate_and_consume_token}
use cyberx_event_mgmt.License.Slots.{acquire_slot, release_slot, reap_expired_slots}

pub data Call : Type 0 where
  creates : NewProduct → Call
  updates : ℕ → ProductPatch → Call
  deletes : ℕ → Call
  generates : String → ℕ → Option ℕ → Call
  redeems : String → String → Call
  acquires : String → ℕ → String → String → Call
  releases : String → String → ℤ → Call
  reaps : Call

module _ (hash : String → String) where
  -- A call that raises leaves what it had committed before.
  unfoldable pub step : Db → ℕ × Call → Db
  step db (now, creates new) = (create_product db new).0
  step db (now, updates i k) = (update_product db i k).0
  step db (now, deletes i) = (delete_product db i).0
  step db (now, generates raw i instance_id) = (generate_token hash db now raw i instance_id).0
  step db (now, redeems raw ip) = (validate_and_consume_token hash db now raw ip).0
  step db (now, acquires slot_id i hostname ip) = (acquire_slot db now slot_id i hostname ip).0
  step db (now, releases slot_id result elapsed) = (release_slot db now slot_id result elapsed).0
  step db (now, reaps) = (reap_expired_slots db now).0

  unfoldable pub run : Db → List (ℕ × Call) → Db
  unfolding step
  run db [] = db
  run db (c ∷ cs) = run (step db c) cs
