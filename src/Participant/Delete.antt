-- ===== src/Participant/Delete.antt =====
-- `delete_participant` of backend/app/services/participant_service.py, with what the database then does
-- with the rows that refer to the deleted one: the ON DELETE actions of the models.
pub mod References
pub mod Retired
use cyberx_event_mgmt.Base.{
  ℕ, Option, none, some, Bool, true, false, not, ◌&&◌, ◌||◌, List, [], ◌∷◌, ◌++◌, if◌then◌else◌,
  ◌==◌, opt_eq, update, delete, Text,
}
use cyberx_event_mgmt.Auth.Data.{Session}
use cyberx_event_mgmt.Event.Data.{Participation}
use cyberx_event_mgmt.EmailQueue.Data.{Email, pending, processing, cancelled, is_status}
use cyberx_event_mgmt.Vpn.Data.{Credential}
use cyberx_event_mgmt.Participant.Data.{User, SyncEntry, Db, has_id, get_participant}
use cyberx_event_mgmt.Participant.Service.{queue_sync}

abbrev pub is_of_session : ℕ → Session → Bool
is_of_session i s = s.user_id == i

abbrev pub is_of_participation : ℕ → Participation → Bool
is_of_participation i p = p.user_id == i

abbrev pub is_of_inviter : ℕ → Participation → Bool
is_of_inviter i p = opt_eq p.invited_by_user_id (some i)

abbrev pub is_of_credential : ℕ → Credential → Bool
is_of_credential i c = opt_eq c.assigned_to_user_id (some i)

abbrev pub is_of_email : ℕ → Email → Bool
is_of_email i e = opt_eq e.user_id (some i)

abbrev pub is_of_sync : ℕ → SyncEntry → Bool
is_of_sync i s = opt_eq s.user_id (some i)

abbrev pub is_of_sponsor : ℕ → User → Bool
is_of_sponsor i u = opt_eq u.sponsor_id (some i)

-- Never to be assigned again.
abbrev pub retired : Credential → Credential
retired c = record c { is_available = false; is_active = false }

-- The action of a foreign key when the row it refers to goes.
pub data OnDelete : Type 0 where
  cascade set_null : OnDelete

abbrev pub on_delete : {A : Type 0} → OnDelete → (A → Bool) → (A → A) → List A → List A
on_delete cascade refers clear xs = delete refers xs
on_delete set_null refers clear xs = update refers clear xs

-- Those of the foreign keys to `users` of the tables that are modelled.
abbrev pub sessions_user_id : OnDelete
sessions_user_id = cascade

abbrev pub participations_user_id : OnDelete
participations_user_id = cascade

abbrev pub participations_invited_by_user_id : OnDelete
participations_invited_by_user_id = set_null

abbrev pub credentials_assigned_to_user_id : OnDelete
credentials_assigned_to_user_id = set_null

abbrev pub emails_user_id : OnDelete
emails_user_id = set_null

abbrev pub sync_user_id : OnDelete
sync_user_id = set_null

abbrev pub users_sponsor_id : OnDelete
users_sponsor_id = set_null

abbrev pub without_inviter : Participation → Participation
without_inviter p = record p { invited_by_user_id = none }

abbrev pub without_owner : Credential → Credential
without_owner c = record c { assigned_to_user_id = none }

abbrev pub is_open : Email → Bool
is_open e = is_status e.status pending || is_status e.status processing

unfoldable pub cancel_emails : ℕ → List Email → List Email
cancel_emails i emails =
    on_delete emails_user_id (is_of_email i) (λ e. record e { user_id = none })
      (update (λ e. is_of_email i e && is_open e) (λ e. record e { status = cancelled }) emails)

unfoldable pub forget_sync : ℕ → Option Text → List SyncEntry → List SyncEntry
forget_sync i username sync =
    on_delete sync_user_id (is_of_sync i) (λ s. record s { user_id = none })
      (queue_sync i username none "delete_user" (delete (λ s. is_of_sync i s && not s.synced) sync))

unfoldable pub forget_user : ℕ → List User → List User
forget_user i users =
    on_delete users_sponsor_id (is_of_sponsor i) (λ u. record u { sponsor_id = none })
      (delete (has_id i) users)

unfoldable pub delete_row : ℕ → User → Db → Db
delete_row i u db = record db {
  sessions =
      on_delete sessions_user_id (is_of_session i) (λ s. s) (delete (is_of_session i) db.sessions);
  events = record db.events {
    participations = on_delete participations_invited_by_user_id (is_of_inviter i) without_inviter (
        on_delete participations_user_id (is_of_participation i) (λ p. p)
          (delete (is_of_participation i) db.events.participations));
  };
  credentials =
      on_delete credentials_assigned_to_user_id (is_of_credential i) without_owner
        (update (is_of_credential i) retired db.credentials);
  queue = record db.queue { emails = cancel_emails i db.queue.emails };
  sync = forget_sync i u.pandas_username db.sync;
  users = forget_user i db.users;
}

delete_found : Db → ℕ → Option User → Db × Bool
delete_found db i none = (db, false)
delete_found db i (some u) = (delete_row i u db, true)

unfoldable pub delete_participant : Db → ℕ → Db × Bool
unfolding delete_found
delete_participant db i = delete_found db i (get_participant db i)
