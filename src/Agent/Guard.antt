-- ===== src/Agent/Guard.antt =====
-- `get_current_agent_instance`. The hash, the lower case and the split of the header are
-- parameters, and the address of the client is an argument.
pub mod Binding
use cyberx_event_mgmt.Base.{
  ℕ, String, Option, none, some, Bool, true, false, not, ◌&&◌, List, [], ◌∷◌, if◌then◌else◌, str_eq,
  is_some, select, update, Result, ok, raised, scalar_one_or_none, http_exception,
}
use cyberx_event_mgmt.Agent.Data.{Instance, Db, has_instance_id}

abbrev pub is_hash : String → Option String → Bool
is_hash h none = false
is_hash h (some g) = str_eq g h

-- The column of the hashes has no unique constraint.
abbrev pub has_agent_token : String → Instance → Bool
has_agent_token h x = is_hash h x.agent_token_hash && not (is_some x.deleted_at)

abbrev pub bind_ip : String → Instance → Instance
bind_ip client_ip x = record x { agent_registered_ip = some client_ip }

bind : Db → String → Instance → Option String → Db × Result Instance
bind db client_ip x none = (
  record db { instances = update (has_instance_id x.id) (bind_ip client_ip) db.instances },
  ok (bind_ip client_ip x),
)
bind db client_ip x (some ip) =
    if str_eq ip client_ip
    then (db, ok x)
    else (db, raised (http_exception 403 "Agent IP does not match registered IP"))

agent_found : Db → String → Result (Option Instance) → Db × Result Instance
unfolding bind
agent_found db client_ip (raised e) = (db, raised e)
agent_found db client_ip (ok none) = (db, raised (http_exception 401 "Invalid agent token"))
agent_found db client_ip (ok (some x)) = bind db client_ip x x.agent_registered_ip

module _ (hash lower : String → String) (split : String → List String) where
  -- The parts of the header.
  by_parts : Db → String → List String → Db × Result Instance
  unfolding agent_found
  by_parts db client_ip (scheme ∷ raw_token ∷ []) =
      if str_eq (lower scheme) "bearer"
      then agent_found db client_ip
          (scalar_one_or_none (select (has_agent_token (hash raw_token)) db.instances))
      else (db, raised (http_exception 401 "Invalid Authorization header format"))
  by_parts db client_ip _ = (db, raised (http_exception 401 "Invalid Authorization header format"))

  unfoldable pub get_current_agent_instance : Db → String → String → Db × Result Instance
  unfolding by_parts
  get_current_agent_instance db client_ip authorization =
      if str_eq authorization ""
      then (db, raised (http_exception 401 "Missing Authorization header"))
      else by_parts db client_ip (split authorization)
