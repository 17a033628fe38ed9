-- ===== src/Participant/Delete/Retired.antt =====
-- The VPN credentials of a deleted participant.
use mathlib.Core.Option
use cyberx_event_mgmt.Base.{
  if◌then◌else◌, ℕ, none, some, true, false, [], arith, subst, ◌≡◌, refl, sym, ap, ◌∙◌, find,
  update, find-update, Unique, Unique-update,
}
use cyberx_event_mgmt.Vpn.Data.{Credential}
use cyberx_event_mgmt.Vpn.Data as Vpn
use cyberx_event_mgmt.Vpn.Pool.Concurrency.{System, Reach}
use cyberx_event_mgmt.Vpn.Pool.Concurrency.Refinement.{assigned_row_kept}
use cyberx_event_mgmt.Participant.Data.{User, Db, get_participant}
use cyberx_event_mgmt.Participant.Delete.{
  is_of_credential, retired, without_owner, delete_row, delete_participant,
}

delete_participant-credentials :
    (db : Db) (i : ℕ) {u : User}
    → get_participant db i ≡ some u
    → (delete_participant db i).0.credentials
      ≡ update
          (is_of_credential i)
          without_owner
          (update (is_of_credential i) retired db.credentials)
unfolding delete_participant delete_row
delete_participant-credentials db i found = rw found refl

-- A VPN credential of a deleted participant is never given to anyone else: whatever transactions claim,
-- commit and roll back in whatever order, from a table with distinct ids, it stays inactive, out of the
-- pool and nobody's.
pub delete_participant-retired :
    (db : Db) (i k : ℕ) {u : User} {c : Credential} (s : System)
    → Unique Vpn.key_of db.credentials
    → get_participant db i ≡ some u
    → find (Vpn.has_id k) db.credentials ≡ some c
    → c.assigned_to_user_id ≡ some i
    → Reach (record { table = (delete_participant db i).0.credentials; claims = [] }) s
    → find (Vpn.has_id k) s.table
      ≡ some (record c { is_available = false; is_active = false; assigned_to_user_id = none })
delete_participant-retired db i k {c = c} s unique present found owner reached =
    let changed = delete_participant-credentials db i present in
    let mine : is_of_credential i c ≡ true = rw owner (ground arith) in
    let own = is_of_credential i in
    let marked = update own retired db.credentials in
    assigned_row_kept (delete_participant db i).0.credentials s k (without_owner (retired c))
      (subst (Unique Vpn.key_of) (sym changed) (
        Unique-update Vpn.key_of own without_owner marked (λ x. refl)
          (Unique-update Vpn.key_of own retired db.credentials (λ x. refl) unique)))
      reached
      (ap (find (Vpn.has_id k)) changed
        ∙ find-update own (Vpn.has_id k) without_owner marked (λ x. refl)
        ∙ ap (Option.map (λ x. if own x then without_owner x else x))
            (find-update own (Vpn.has_id k) retired db.credentials (λ x. refl))
        ∙ rw (found, mine) (rw mine refl))
      refl
