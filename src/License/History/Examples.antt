-- ===== src/License/History/Examples.antt =====
-- The theorems on licenses at concrete calls, and tests.
use cyberx_event_mgmt.Base.{
  ℕ, ◌+◌, ◌≤◌, ◌<◌, ◌↔◌, ◌≡◌, refl, String, none, some, true, false, List, [], ◌∷◌, ◌⊎◌, arith, ok,
  find, update, count,
}
use cyberx_event_mgmt.License.Data.{Product, Token, Slot, Db, get_product, active_slots}
use cyberx_event_mgmt.License.Products.{default_product, create_product}
use cyberx_event_mgmt.License.Tokens.{generate_token, validate_and_consume_token}
use cyberx_event_mgmt.License.Tokens.Redemption.{
  IsRedeemable, validate_and_consume_token_iff, generate_token-validate_and_consume_token,
}
use cyberx_event_mgmt.License.Slots.{granted, wait, acquire_slot, reap_product, insert_slot}
use cyberx_event_mgmt.License.Slots.Queue.{acquire_slot_decision, acquire_slot_race}
use cyberx_event_mgmt.License.History.{Call, creates, generates, redeems, acquires, reaps, run}
use cyberx_event_mgmt.License.History.SingleUse.{validate_and_consume_token_once}
use cyberx_event_mgmt.License.History.Limits.{empty, run_limit}

-- Any function serves as the hash here.
abbrev hash : String → String
hash s = s

abbrev c2 : Product
c2 = record {
  id = 0;
  name = "c2";
  description = none;
  license_blob = "blob";
  max_concurrent = 2;
  slot_ttl = 7200;
  token_ttl = 7200;
  is_active = true;
  download_filename = none;
}

abbrev slot_a : Slot
slot_a = record {
  slot_id = "a";
  product_id = 0;
  hostname = "host-a";
  ip_address = "10.0.0.1";
  acquired_at = 5;
  released_at = none;
  result = none;
  elapsed_seconds = none;
  is_active = true;
}

abbrev one_busy : Db
one_busy = record { products = c2 ∷ []; tokens = []; slots = slot_a ∷ []; next_product_id = 1 }

abbrev busy_day : List (ℕ × Call)
busy_day =
    (1, creates (default_product "c2" "blob"))
    ∷ (5, acquires "a" 0 "host-a" "10.0.0.1")
    ∷ (6, acquires "b" 0 "host-b" "10.0.0.2")
    ∷ (7, acquires "c" 0 "host-c" "10.0.0.3")
    ∷ []

busy_day_full : active_slots (run hash empty busy_day) 0 ≡ 2
unfolding run create_product default_product acquire_slot get_product active_slots find count update
busy_day_full = refl

run_limit_example : active_slots (run hash empty busy_day) 0 ≤ 2
unfolding run create_product default_product acquire_slot get_product active_slots find count update
run_limit_example = run_limit hash busy_day 0 {p = c2} (omega arith) refl

acquire_slot_decision_example :
    let n = active_slots (reap_product one_busy 9 c2).0 0 in
    let r = acquire_slot one_busy 9 "b" 0 "host-b" "10.0.0.2" in
    ((n < 2) × (r.1 ≡ ok (granted "b" (n + 1) 2)) × (active_slots r.0 0 ≡ n + 1))
    ⊎ ((2 ≤ n) × (r ≡ ((reap_product one_busy 9 c2).0, ok (wait n 2 30))))
unfolding get_product find
acquire_slot_decision_example =
    acquire_slot_decision one_busy 9 "b" 0 "host-b" "10.0.0.2" {p = c2} refl refl

acquire_slot_race_example :
    let db' = (insert_slot one_busy 9 "b" c2 0 1 "host" "10.0.0.2").0 in
    let r = insert_slot db' 9 "c" c2 0 1 "host" "10.0.0.2" in
    (r.1 ≡ ok (granted "c" 2 2)) × (active_slots r.0 0 ≡ 3)
unfolding active_slots find count
acquire_slot_race_example =
    acquire_slot_race one_busy 9 "b" "c" c2 0 "host" "10.0.0.2" refl refl refl refl

abbrev with_token : Db
with_token = record one_busy {
  tokens =
      record {
        token_hash = "secret";
        product_id = 0;
        used = false;
        used_at = none;
        used_by_ip = none;
        instance_id = none;
        expires_at = 100;
      }
      ∷ [];
}

abbrev after_redeem : List (ℕ × Call)
after_redeem =
    (60, generates "secret" 0 none) ∷ (70, redeems "secret" "10.0.0.9") ∷ (80, reaps) ∷ []

validate_and_consume_token_once_example :
    (validate_and_consume_token hash
      (run hash (validate_and_consume_token hash with_token 50 "secret" "10.0.0.1").0 after_redeem)
      90
      "secret"
      "10.0.0.2").1
    ≡ none
unfolding validate_and_consume_token get_product find
validate_and_consume_token_once_example =
    validate_and_consume_token_once hash with_token 50 90 "secret" "10.0.0.1" "10.0.0.2"
      after_redeem {r = ("blob", "c2")} refl (omega arith)

generate_token-validate_and_consume_token_example :
    ((generate_token hash one_busy 10 "fresh" 0 none).1 ≡ ok "fresh")
    × ((validate_and_consume_token hash
          (generate_token hash one_busy 10 "fresh" 0 none).0
          500
          "fresh"
          "10.0.0.2").1
        ≡ some ("blob", "c2"))
unfolding get_product find
generate_token-validate_and_consume_token_example =
    generate_token-validate_and_consume_token hash one_busy 10 500 "fresh" "10.0.0.2" 0 none
      {p = c2} refl refl refl (omega arith)

validate_and_consume_token_iff_example :
    ((validate_and_consume_token hash with_token 100 "secret" "10.0.0.1").1 ≡ some ("blob", "c2"))
    ↔ ((t : Token) × (p : Product) × IsRedeemable with_token 100 "secret" t p
        × (◌≡◌ {A = String × String} ("blob", "c2") (p.license_blob, p.name)))
validate_and_consume_token_iff_example =
    validate_and_consume_token_iff hash with_token 100 "secret" "10.0.0.1" ("blob", "c2")

-- A token is good at its last microsecond and not after it.
validate_and_consume_token_late :
    (validate_and_consume_token hash with_token 101 "secret" "10.0.0.1").1 ≡ none
unfolding validate_and_consume_token get_product find
validate_and_consume_token_late = refl
