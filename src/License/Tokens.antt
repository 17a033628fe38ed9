-- ===== src/License/Tokens.antt =====
-- Token generation and consumption. SHA-256 is the parameter `hash`; the random token of
-- `secrets.token_urlsafe` is an argument.
pub mod Redemption
use cyberx_event_mgmt.Base.{
  ℕ, ◌+◌, String, Option, none, some, Bool, true, false, not, ◌||◌, List, [], ◌∷◌, ◌++◌, str_eq,
  if◌then◌else◌, is_some, ltb, seconds, find, update, Result, ok, raised, value_error,
  integrity_error,
}
use cyberx_event_mgmt.License.Data.{Product, Token, Db, get_product}

abbrev pub has_hash : String → Token → Bool
has_hash h t = str_eq t.token_hash h

module _ (hash : String → String) where
  -- The row that `generate_token` adds.
  abbrev pub new_token : Product → ℕ → ℕ → String → Option ℕ → Token
  new_token p now product_id raw_token instance_id = record {
    token_hash = hash raw_token;
    product_id = product_id;
    used = false;
    used_at = none;
    used_by_ip = none;
    instance_id = instance_id;
    expires_at = now + seconds p.token_ttl;
  }

  issue : Db → ℕ → ℕ → String → Option ℕ → Option Product → Db × Result String
  issue db now product_id raw_token instance_id none =
      (db, raised (value_error "License product not found"))
  issue db now product_id raw_token instance_id (some p) =
      if is_some (find (has_hash (hash raw_token)) db.tokens)
      then (db, raised integrity_error)
      else (
        record db { tokens = db.tokens ++ new_token p now product_id raw_token instance_id ∷ [] },
        ok raw_token,
      )

  unfoldable pub generate_token : Db → ℕ → String → ℕ → Option ℕ → Db × Result String
  unfolding issue
  generate_token db now raw_token product_id instance_id =
      issue db now product_id raw_token instance_id (get_product db product_id)

  -- The assignments that consume a token.
  abbrev pub mark_used : ℕ → String → Token → Token
  mark_used now client_ip t = record t {
    used = true;
    used_at = some now;
    used_by_ip = some client_ip;
  }

  release_blob : Db → ℕ → String → String → Option Product → Db × Option (String × String)
  release_blob db now client_ip h none = (db, none)
  release_blob db now client_ip h (some p) =
      if p.is_active
      then (
        record db { tokens = update (has_hash h) (mark_used now client_ip) db.tokens },
        some (p.license_blob, p.name),
      )
      else (db, none)

  consume : Db → ℕ → String → String → Option Token → Db × Option (String × String)
  unfolding release_blob
  consume db now client_ip h none = (db, none)
  consume db now client_ip h (some t) =
      if t.used
      then (db, none)
      else if ltb t.expires_at now
      then (db, none)
      else release_blob db now client_ip h (get_product db t.product_id)

  unfoldable pub validate_and_consume_token :
      Db → ℕ → String → String → Db × Option (String × String)
  unfolding consume
  validate_and_consume_token db now raw_token client_ip =
      consume db now client_ip (hash raw_token) (find (has_hash (hash raw_token)) db.tokens)
