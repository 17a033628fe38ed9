-- ===== src/Participant/Create/Deferred.antt =====
-- New invitees before they accept.
use cyberx_event_mgmt.Base.{
  Option, none, some, Bool, true, false, [], ◌∷◌, ◌++◌, ◌≡◌, refl, ap, ◌∙◌, inl, inr, Bool-cases,
  if◌then◌else◌, eq→==, str_eq, find, update, find-append_none, find-update, ok,
}
use mathlib.Core.Option
use cyberx_event_mgmt.Event.Data.{Event}
use cyberx_event_mgmt.Event.Service.{get_active_event}
use cyberx_event_mgmt.Participant.Data.{User, Db, Env, has_id, get_participant, change_user}
use cyberx_event_mgmt.Participant.Invitation.{invited}
use cyberx_event_mgmt.Participant.Create.{
  NewParticipant, new_user, role_of, should_generate_credentials, should_send_invitation,
  send_invitation, without_invitation, is_taken, add_user, notify, create_participant,
}

found_alone : (p : User → Bool) (u : User) → p u ≡ true → find p (u ∷ []) ≡ some u
unfolding find
found_alone p u h = rw h refl

send_invitation-unconfirmed :
    (env : Env) (u : User) (e : Option Event) (db : Db)
    → str_eq u.confirmed "YES" ≡ false
    → should_send_invitation u e ≡ true
    → send_invitation env u e db ≡ change_user db u.id (invited env)
unfolding send_invitation should_send_invitation
send_invitation-unconfirmed env u none db waiting sent = absurd (cc sent)
send_invitation-unconfirmed env u (some e) db waiting sent = rw waiting refl

notify-unconfirmed :
    (env : Env) (u : User) (e : Option Event) (db : Db)
    → str_eq u.confirmed "YES" ≡ false
    → str_eq u.role "invitee" ≡ true
    → notify env u e db
      ≡ (if should_send_invitation u e then change_user db u.id (invited env) else db)
unfolding notify without_invitation
notify-unconfirmed env u e db waiting role = elim (Bool-cases (should_send_invitation u e)) [
  | inl sent ↦ rw (role, sent) (send_invitation-unconfirmed env u e db waiting sent)
  | inr kept ↦ rw (role, kept, waiting) refl
]

new_user-deferred :
    (env : Env) (db : Db) (a : NewParticipant)
    → a.role ≡ "invitee"
    → a.is_admin ≡ false
    → str_eq a.confirmed "YES" ≡ false
    → a.pandas_username ≡ none
    → a.pandas_password ≡ none
    → ((new_user env db a).role ≡ "invitee")
      × ((new_user env db a).id ≡ db.next_id)
      × (str_eq (new_user env db a).confirmed "YES" ≡ false)
      × ((new_user env db a).pandas_username ≡ none)
      × ((new_user env db a).pandas_password ≡ none)
      × ((new_user env db a).password_hash ≡ none)
unfolding new_user should_generate_credentials role_of
new_user-deferred env db a role flag waiting name password = (
  rw (role, flag) refl,
  refl,
  waiting,
  rw (role, waiting, name, password) refl,
  rw (role, waiting, name, password) refl,
  rw (role, waiting, name, password) refl,
)

new_user-code :
    (env : Env) (db : Db) (a : NewParticipant) → (new_user env db a).confirmation_code ≡ none
unfolding new_user
new_user-code env db a = refl

-- The creation of an unconfirmed invitee without the flag of administrators and without credentials,
-- whose address and name are free, makes a user without name, password or hash and sends no email;
-- the user that is stored has the new confirmation code if an invitation may be sent, and none
-- otherwise.
pub create_participant_deferred :
    (env : Env) (db : Db) (a : NewParticipant)
    → a.role ≡ "invitee"
    → a.is_admin ≡ false
    → str_eq a.confirmed "YES" ≡ false
    → a.pandas_username ≡ none
    → a.pandas_password ≡ none
    → is_taken db (new_user env db a) ≡ false
    → find (has_id db.next_id) db.users ≡ none
    → let (db', created) = create_participant env db a in
      let u = new_user env db a in
      let sent = should_send_invitation u (get_active_event db.events) in
      let row = if sent then invited env u else u in
      (created ≡ ok db.next_id)
      × (get_participant db' db.next_id ≡ some row)
      × (row.confirmation_code ≡ (if sent then some env.code else none))
      × (row.pandas_username ≡ none)
      × (row.pandas_password ≡ none)
      × (row.password_hash ≡ none)
      × (db'.queue ≡ db.queue)
unfolding create_participant get_participant
create_participant_deferred env db a role flag waiting name password free fresh =
    let u = new_user env db a in
    let made = new_user-deferred env db a role flag waiting name password in
    let notified =
      notify-unconfirmed env u (get_active_event db.events) (add_user u db) made.2
        (ap (λ r. str_eq r "invitee") made.0) in
    let added = find-append_none (has_id db.next_id) db.users (u ∷ []) fresh in
    let same = eq→== u.id db.next_id made.1 in
    let found = added ∙ found_alone (has_id db.next_id) u same in
    rw (free, notified)
      elim (Bool-cases (should_send_invitation u (get_active_event db.events))) [
        | inl sent ↦ rw sent (
          ap ok made.1,
          ap (find (has_id db.next_id))
                (ap (λ i. update (has_id i) (invited env) (db.users ++ u ∷ [])) made.1)
              ∙ find-update (has_id db.next_id) (has_id db.next_id) (invited env)
                  (db.users ++ u ∷ []) (λ x. refl)
              ∙ ap (Option.map (λ x. if has_id db.next_id x then invited env x else x)) found
              ∙ rw same refl,
          refl,
          made.3,
          made.4,
          made.5,
          refl,
        )
        | inr kept ↦
            rw kept (ap ok made.1, found, new_user-code env db a, made.3, made.4, made.5, refl)
      ]
