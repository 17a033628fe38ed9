-- ===== src/Participant/Delete/References.antt =====
-- The foreign keys that refer to `users`, of the tables that are modelled here: sessions,
-- participations, VPN credentials, emails, the sync queue and `users` itself.
use cyberx_event_mgmt.Base.{
  ℕ, Option, none, some, true, false, not, ◌&&◌, List, [], ◌∷◌, arith, ◌≡◌, refl, ap, ◌∙◌, inl, inr,
  Bool-cases, Option-cases, if◌then◌else◌, find, update, delete, find-update, find-delete_other,
  find-delete_self, opt_eq, ◌==◌, All, All-update, All-update_to, All-delete, All-delete_to,
  All-append, is_nil, is_some, Text,
}
use mathlib.Core.Option
use cyberx_event_mgmt.Event.Data.{Participation}
use cyberx_event_mgmt.EmailQueue.Data.{cancelled}
use cyberx_event_mgmt.Participant.Data.{User, SyncEntry, Db, has_id, get_participant}
use cyberx_event_mgmt.Participant.Service.{queue_sync}
use cyberx_event_mgmt.Participant.Delete.{
  is_of_session, is_of_participation, is_of_inviter, is_of_credential, without_inviter,
  without_owner, is_of_email, is_of_sync, is_of_sponsor, is_open, retired, cancel_emails,
  forget_sync, forget_user, delete_row, delete_participant,
}

-- The user of a foreign key exists.
abbrev pub Refers : List User → Option ℕ → Type 0
Refers users none = Unit
Refers users (some i) = is_some (find (has_id i) users) ≡ true

-- Each of these foreign keys refers to a row: the users of sessions and participations, those who
-- invited, the users of VPN credentials, emails and the sync queue, and the sponsors.
unfoldable pub AreReferences : Db → Type 0
AreReferences db =
    All (λ s. Refers db.users (some s.user_id)) db.sessions
    × All (λ p. Refers db.users (some p.user_id)) db.events.participations
    × All (λ p. Refers db.users p.invited_by_user_id) db.events.participations
    × All (λ c. Refers db.users c.assigned_to_user_id) db.credentials
    × All (λ e. Refers db.users e.user_id) db.queue.emails
    × All (λ s. Refers db.users s.user_id) db.sync
    × All (λ u. Refers db.users u.sponsor_id) db.users

is_some-map {ℓ κ} :
    {A : Type ℓ} {B : Type κ} (f : A → B) (o : Option A) → is_some (Option.map f o) ≡ is_some o
is_some-map f none = refl
is_some-map f (some x) = refl

forget_user-find_other :
    (i j : ℕ) (users : List User)
    → (j == i) ≡ false
    → is_some (find (has_id j) users) ≡ true
    → is_some (find (has_id j) (forget_user i users)) ≡ true
unfolding forget_user
forget_user-find_other i j users apart found =
    ap is_some (
      find-update (is_of_sponsor i) (has_id j) (λ u. record u { sponsor_id = none })
        (delete (has_id i) users) (λ x. refl))
    ∙ is_some-map (λ x. if is_of_sponsor i x then record x { sponsor_id = none } else x)
        (find (has_id j) (delete (has_id i) users))
    ∙ ap is_some
        (find-delete_other (has_id i) (has_id j) users (λ x same. ground (arith, same, apart)))
    ∙ found

forget_user-find_self : (i : ℕ) (users : List User) → find (has_id i) (forget_user i users) ≡ none
unfolding forget_user
forget_user-find_self i users =
    find-update (is_of_sponsor i) (has_id i) (λ u. record u { sponsor_id = none })
      (delete (has_id i) users) (λ x. refl)
    ∙ rw (find-delete_self (has_id i) users) refl

forget_user-Refers :
    (i : ℕ) (users : List User) (o : Option ℕ)
    → opt_eq o (some i) ≡ false
    → Refers users o
    → Refers (forget_user i users) o
forget_user-Refers i users none apart r = tt
forget_user-Refers i users (some j) apart r = forget_user-find_other i j users apart r

-- The rows of a table that refer to the deleted user go, or lose their reference.
module _ {A : Type 0} (i : ℕ) (users : List User) (key : A → Option ℕ) where
  All-forgets :
      (f : A → A) (xs : List A)
      → ((x : A) → key (f x) ≡ none)
      → All (λ x. Refers users (key x)) xs
      → All (λ x. Refers (forget_user i users) (key x)) (update (λ x. opt_eq (key x) (some i)) f xs)
  All-forgets f xs cleared h =
      All-update_to (λ x. Refers users (key x)) (λ x. Refers (forget_user i users) (key x))
        (λ x. opt_eq (key x) (some i)) f xs (λ x own r. rw (cleared x) tt)
        (λ x other r. forget_user-Refers i users (key x) other r) h

  All-removes :
      (xs : List A)
      → All (λ x. Refers users (key x)) xs
      → All (λ x. Refers (forget_user i users) (key x)) (delete (λ x. opt_eq (key x) (some i)) xs)
  All-removes xs h =
      All-delete_to (λ x. Refers users (key x)) (λ x. Refers (forget_user i users) (key x))
        (λ x. opt_eq (key x) (some i)) xs (λ x other r. forget_user-Refers i users (key x) other r)
        h

forget_user-All :
    (i : ℕ) (users : List User)
    → All (λ u. Refers users u.sponsor_id) users
    → All (λ u. Refers (forget_user i users) u.sponsor_id) (forget_user i users)
unfolding forget_user
forget_user-All i users h =
    All-forgets i users (λ u. u.sponsor_id) (λ u. record u { sponsor_id = none })
      (delete (has_id i) users) (λ x. refl)
      (All-delete (λ u. Refers users u.sponsor_id) (has_id i) users h)

All-queue_sync :
    (P : SyncEntry → Type 0) (i : ℕ) (username password : Option Text) (operation : _)
    (sync : List SyncEntry)
    → All P sync
    → ((name : Text)
        → P (record {
          user_id = some i;
          username = name;
          password = password;
          operation = operation;
          synced = false;
        }))
    → All P (queue_sync i username password operation sync)
unfolding queue_sync
All-queue_sync P i none password operation sync h new = h
All-queue_sync P i (some username) password operation sync h new =
    elim (Bool-cases (is_nil username)) [
      | inl e ↦ rw e h
      | inr e ↦ rw e (
          All-append P sync
            (record {
              user_id = some i;
              username = username;
              password = password;
              operation = operation;
              synced = false;
            }
              ∷ [])
            h (new username, tt))
    ]

delete_row-AreReferences :
    (db : Db) (i : ℕ) (u : User)
    → get_participant db i ≡ some u
    → AreReferences db
    → AreReferences (delete_row i u db)
unfolding delete_row AreReferences cancel_emails forget_sync get_participant
delete_row-AreReferences db i u present
      (sessions, participations, inviters, credentials, emails, sync, sponsors) =
    let left : List Participation =
      delete (is_of_participation i) (delete (is_of_participation i) db.events.participations) in
    (
      All-removes i db.users (λ s. some s.user_id) (delete (is_of_session i) db.sessions)
          (All-delete (λ s. Refers db.users (some s.user_id)) (is_of_session i) db.sessions
            sessions),
      All-update (λ p. Refers (forget_user i db.users) (some p.user_id)) (is_of_inviter i)
          without_inviter left (λ x own r. r)
          (All-removes i db.users (λ p. some p.user_id)
            (delete (is_of_participation i) db.events.participations)
            (All-delete (λ p. Refers db.users (some p.user_id)) (is_of_participation i)
              db.events.participations participations)),
      All-forgets i db.users (λ p. p.invited_by_user_id) without_inviter left (λ x. refl)
          (All-delete (λ p. Refers db.users p.invited_by_user_id) (is_of_participation i)
            (delete (is_of_participation i) db.events.participations)
            (All-delete (λ p. Refers db.users p.invited_by_user_id) (is_of_participation i)
              db.events.participations inviters)),
      All-forgets i db.users (λ c. c.assigned_to_user_id) without_owner
          (update (is_of_credential i) retired db.credentials) (λ x. refl)
          (All-update (λ c. Refers db.users c.assigned_to_user_id) (is_of_credential i) retired
            db.credentials (λ x own r. r) credentials),
      All-forgets i db.users (λ e. e.user_id) (λ e. record e { user_id = none })
          (update (λ e. is_of_email i e && is_open e) (λ e. record e { status = cancelled })
            db.queue.emails)
          (λ x. refl)
          (All-update_to (λ e. Refers db.users e.user_id) (λ e. Refers db.users e.user_id)
            (λ e. is_of_email i e && is_open e) (λ e. record e { status = cancelled })
            db.queue.emails (λ x own r. r) (λ x other r. r) emails),
      All-forgets i db.users (λ s. s.user_id) (λ s. record s { user_id = none })
          (queue_sync i u.pandas_username none "delete_user"
            (delete (λ s. is_of_sync i s && not s.synced) db.sync))
          (λ x. refl)
          (All-queue_sync (λ s. Refers db.users s.user_id) i u.pandas_username none "delete_user"
            (delete (λ s. is_of_sync i s && not s.synced) db.sync)
            (All-delete_to (λ s. Refers db.users s.user_id) (λ s. Refers db.users s.user_id)
              (λ s. is_of_sync i s && not s.synced) db.sync (λ x other r. r) sync)
            (λ name. ap is_some present)),
      forget_user-All i db.users sponsors,
    )

delete_row-gone : (db : Db) (i : ℕ) (u : User) → get_participant (delete_row i u db) i ≡ none
unfolding delete_row get_participant
delete_row-gone db i u = forget_user-find_self i db.users

-- After the deletion of a participant there is no such user, and the foreign keys to `users` of the
-- sessions, the participations (for the user and the inviter), the VPN credentials, the emails, the
-- sync queue and the sponsored users still refer to rows, if each of them did before: no such row is
-- left that names the deleted user.
pub delete_participant-AreReferences :
    (db : Db) (i : ℕ)
    → AreReferences db
    → (get_participant (delete_participant db i).0 i ≡ none)
      × AreReferences (delete_participant db i).0
unfolding delete_participant
delete_participant-AreReferences db i h = elim (Option-cases (get_participant db i)) [
  | inl absent ↦ rw absent (absent, h)
  | inr (u, present) ↦
      rw present (delete_row-gone db i u, delete_row-AreReferences db i u present h)
]
