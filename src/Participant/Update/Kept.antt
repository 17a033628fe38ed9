-- ===== src/Participant/Update/Kept.antt =====
-- What an update leaves alone.
use mathlib.Core.Option
use cyberx_event_mgmt.Base.{
  ℕ, String, Option, none, some, false, ◌&&◌, ◌≡◌, refl, ap, ◌∙◌, inl, inr, Bool-cases,
  if◌then◌else◌, ◌==◌, eq→==, find, find-update, find-holds, ==→eq, Text,
}
use cyberx_event_mgmt.Participant.Data.{User, Db, Env, has_id, get_participant, change_user}
use cyberx_event_mgmt.Participant.Update.{
  Changes, or_kept, change_password, change_email, change_columns, is_new_email, updated,
  is_duplicate, newly_confirmed, notify_confirmed, update_participant,
}
use cyberx_event_mgmt.Participant.Create.{can_send_email}

abbrev pub KeepsLogin : Env → User → User → Type 0
KeepsLogin env u x =
    (x.id ≡ u.id)
    × (x.pandas_username ≡ u.pandas_username)
    × (x.pandas_password ≡ u.pandas_password)
    × (x.password_hash ≡ u.password_hash)

change_email-KeepsLogin :
    (env : Env) (o : Option Text) (u : User) → KeepsLogin env u (change_email env o u)
change_email-KeepsLogin env none u = (refl, refl, refl, refl)
change_email-KeepsLogin env (some email) u = elim (Bool-cases (is_new_email env u email)) [
  | inl new ↦ rw new (refl, refl, refl, refl)
  | inr same ↦ rw same (refl, refl, refl, refl)
]

updated-KeepsLogin :
    (env : Env) (c : Changes) (u : User)
    → KeepsLogin env (change_password env c.pandas_password u) (updated env c u)
unfolding updated
updated-KeepsLogin env c u =
    change_email-KeepsLogin env c.email (change_columns c (change_password env c.pandas_password u))

change_password-id :
    (env : Env) (o : Option (Option Text)) (u : User) → (change_password env o u).id ≡ u.id
change_password-id env none u = refl
change_password-id env (some none) u = refl
change_password-id env (some (some p)) u = refl

change_password-username :
    (env : Env) (o : Option (Option Text)) (u : User)
    → (change_password env o u).pandas_username ≡ u.pandas_username
change_password-username env none u = refl
change_password-username env (some none) u = refl
change_password-username env (some (some p)) u = refl

pub notify_confirmed-users :
    (env : Env) (c : Changes) (u : User) (db : Db) → (notify_confirmed env c u db).users ≡ db.users
unfolding notify_confirmed
notify_confirmed-users env c u db =
    elim (Bool-cases (newly_confirmed c u && can_send_email (updated env c u).email_status)) [
      | inl e ↦ rw e refl
      | inr e ↦ rw e refl
    ]

pub update_participant-row :
    (env : Env) (db : Db) (i : ℕ) (c : Changes) (u : User)
    → get_participant db i ≡ some u
    → is_duplicate env db u c.email ≡ false
    → get_participant (update_participant env db i c).0 i ≡ some (updated env c u)
unfolding update_participant get_participant
update_participant-row env db i c u found free =
    let own = ==→eq u.id i (find-holds (has_id i) db.users found) in
    rw (found, free)
      (ap (find (has_id i)) (notify_confirmed-users env c u (change_user db u.id (updated env c)))
        ∙ find-update (has_id u.id) (has_id i) (updated env c) db.users (λ x.
          ap (λ k. k == i)
            ((updated-KeepsLogin env c x).0 ∙ change_password-id env c.pandas_password x))
        ∙ ap (Option.map (λ x. if has_id u.id x then updated env c x else x)) found
        ∙ rw (eq→== u.id u.id refl) refl)

-- The hash after an update: that of a new password, and otherwise the old one.
abbrev pub hash_after : Env → Option (Option Text) → Option String → Option String
hash_after env (some (some p)) old = some (env.hash p)
hash_after env (some none) old = old
hash_after env none old = old

change_password-kept :
    (env : Env) (o : Option (Option Text)) (u : User)
    → ((change_password env o u).pandas_password ≡ or_kept o u.pandas_password)
      × ((change_password env o u).password_hash ≡ hash_after env o u.password_hash)
change_password-kept env none u = (refl, refl)
change_password-kept env (some none) u = (refl, refl)
change_password-kept env (some (some p)) u = (refl, refl)

-- Any update to an address that no other user has stores the changed row: the id and the user name
-- stay as they are, whatever is asked for; the password changes if one is given, and a new one is
-- stored with its own hash, while the hash stays without one.
pub update_participant_login :
    (env : Env) (db : Db) (i : ℕ) (c : Changes) (u : User)
    → get_participant db i ≡ some u
    → is_duplicate env db u c.email ≡ false
    → let row = updated env c u in
      (get_participant (update_participant env db i c).0 i ≡ some row)
      × (row.id ≡ u.id)
      × (row.pandas_username ≡ u.pandas_username)
      × (row.pandas_password ≡ or_kept c.pandas_password u.pandas_password)
      × (row.password_hash ≡ hash_after env c.pandas_password u.password_hash)
update_participant_login env db i c u found free =
    let kept = updated-KeepsLogin env c u in
    let changed = change_password-kept env c.pandas_password u in
    (
      update_participant-row env db i c u found free,
      kept.0 ∙ change_password-id env c.pandas_password u,
      kept.1 ∙ change_password-username env c.pandas_password u,
      kept.2 ∙ changed.0,
      kept.3 ∙ changed.1,
    )
