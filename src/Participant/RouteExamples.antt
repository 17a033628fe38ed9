-- ===== src/Participant/RouteExamples.antt =====
-- The theorems on the lists, creations and updates of participants at concrete calls, and tests.
use cyberx_event_mgmt.Base.{
  ℕ, ◌≡◌, refl, String, Option, none, some, Bool, true, false, [], ◌∷◌, if◌then◌else◌, codes, find,
  select, sort_by, insert_by, count, is_some, is_space, strip, lstrip, rstrip, text_eq, ok, raised,
  multiple_results_found, scalar_one_or_none,
}
use cyberx_event_mgmt.Auth.Permissions.{
  has_permission, get_effective_permissions, role_permissions, has_all, contains_text,
}
use cyberx_event_mgmt.Auth.Guards.{admin_only, can_edit_participant}
use cyberx_event_mgmt.Event.Service.{get_active_event}
use cyberx_event_mgmt.Participant.Names.{normalize_email, rsplit_at, is_gmail, ends_with}
use cyberx_event_mgmt.Participant.Data.{User, get_participant, as_auth}
use cyberx_event_mgmt.Participant.Service.{get_participant_by_email}
use cyberx_event_mgmt.Participant.Invitation.{invited}
use cyberx_event_mgmt.Participant.Create.{
  NewParticipant, new_user, should_generate_credentials, role_of, should_send_invitation,
  create_participant,
}
use cyberx_event_mgmt.Participant.Create.Deferred.{create_participant_deferred}
use cyberx_event_mgmt.Participant.Create.Route.{
  ParticipantCreate, Caller, new_participant, target_role,
}
use cyberx_event_mgmt.Participant.Create.Welcome.{admin_create_participant}
use cyberx_event_mgmt.Participant.Create.Escalation.{admin_create_participant_escalates}
use cyberx_event_mgmt.Participant.Update.{Changes, updated, is_duplicate, update_participant}
use cyberx_event_mgmt.Participant.Update.Kept.{update_participant_login}
use cyberx_event_mgmt.Participant.Update.Route.{ParticipantUpdate, admin_update_participant}
use cyberx_event_mgmt.Participant.Update.Route.Escalation.{admin_update_participant_escalates}
use cyberx_event_mgmt.Participant.Listing.{
  filter_vpn, kept, with_total, by_vpn, is_sponsored, has_role, is_found, is_confirmed,
  has_activity, Filters, is_listed, page_of, list_participants,
}
use cyberx_event_mgmt.Participant.Listing.Filtered.{has_several, by_any, list_participants_filtered}
use cyberx_event_mgmt.Participant.Examples.{env, guest, sponsor, event, start}

abbrev arguments : NewParticipant
arguments = record {
  email = codes "eve@x.org";
  first_name = codes "Eve";
  last_name = codes "Jones";
  country = "UK";
  confirmed = "UNKNOWN";
  pandas_username = none;
  pandas_password = none;
  discord_username = none;
  sponsor_email = none;
  sponsor_id = some 2;
  role = "invitee";
  role_obj = none;
  is_admin = false;
}

create_participant_deferred_example :
    let (db', created) = create_participant env (start (event 1 true ∷ [])) arguments in
    let u = new_user env (start (event 1 true ∷ [])) arguments in
    let sent = should_send_invitation u (get_active_event (start (event 1 true ∷ [])).events) in
    let row = if sent then invited env u else u in
    (created ≡ ok 4)
    × (get_participant db' 4 ≡ some row)
    × (row.confirmation_code ≡ (if sent then some "fresh" else none))
    × (row.pandas_username ≡ none)
    × (row.pandas_password ≡ none)
    × (row.password_hash ≡ none)
    × (db'.queue ≡ (start []).queue)
unfolding find new_user should_generate_credentials role_of normalize_email rsplit_at is_gmail
    ends_with text_eq strip lstrip rstrip is_space
create_participant_deferred_example =
    create_participant_deferred env (start (event 1 true ∷ [])) arguments refl refl refl refl refl
      refl refl

abbrev request : ParticipantCreate
request = record {
  email = codes "eve@x.org";
  first_name = codes "Eve";
  last_name = codes "Jones";
  country = "UK";
  confirmed = "UNKNOWN";
  pandas_username = none;
  pandas_password = some (codes "mine");
  discord_username = none;
  sponsor_email = none;
  sponsor_id = none;
  role = "invitee";
  role_id = none;
  is_admin = true;
}

abbrev as_is : String → String
as_is s = s

abbrev caller : Caller
caller = record { user = sponsor; role_row = none }

admin_create_participant_escalates_example :
    let u = new_user env (start []) (new_participant env caller request "invitee" none) in
    (get_participant (admin_create_participant as_is env [] (start []) caller request).0 4 ≡ some u)
    × (admin_only (as_auth env u) ≡ ok (as_auth env u))
    × (u.password_hash ≡ some "hash")
unfolding find has_permission get_effective_permissions role_permissions has_all contains_text
    target_role get_participant_by_email new_user new_participant should_generate_credentials
    role_of normalize_email rsplit_at is_gmail ends_with text_eq strip lstrip rstrip is_space
admin_create_participant_escalates_example =
    admin_create_participant_escalates as_is env [] (start []) caller request refl refl refl refl
      refl refl refl refl refl

abbrev nothing : Changes
nothing = record {
  email = none;
  first_name = none;
  last_name = none;
  country = none;
  confirmed = none;
  email_status = none;
  pandas_username = none;
  pandas_password = none;
  discord_username = none;
  sponsor_email = none;
  sponsor_id = none;
  role = none;
  role_obj = none;
  is_admin = none;
  is_active = none;
}

abbrev flagged : ParticipantUpdate
flagged = record { changes = record nothing { is_admin = some true }; role_id = none }

admin_update_participant_escalates_example :
    let after = updated env flagged.changes guest in
    (get_participant (admin_update_participant as_is env [] (start []) sponsor 3 flagged).0 3
      ≡ some after)
    × (admin_only (as_auth env after) ≡ ok (as_auth env after))
unfolding find get_participant has_permission get_effective_permissions role_permissions has_all
    contains_text can_edit_participant
admin_update_participant_escalates_example =
    admin_update_participant_escalates as_is env [] (start []) sponsor 3 flagged refl refl refl refl
      refl refl refl refl

abbrev renamed : Changes
renamed = record nothing {
  pandas_username = some (some (codes "eve"));
  pandas_password = some (some (codes "new"));
}

update_participant_login_example :
    (get_participant (update_participant env (start []) 3 renamed).0 3
      ≡ some (updated env renamed guest))
    × ((updated env renamed guest).id ≡ 3)
    × ((updated env renamed guest).pandas_username ≡ none)
    × ((updated env renamed guest).pandas_password ≡ some (codes "new"))
    × ((updated env renamed guest).password_hash ≡ some "hash")
unfolding find get_participant is_duplicate
update_participant_login_example = update_participant_login env (start []) 3 renamed guest refl refl

abbrev all_with_vpn : Filters
all_with_vpn = record {
  page = 1;
  page_size = 50;
  search = none;
  confirmed = none;
  has_vpn = some true;
  is_active = none;
  email_status = none;
  sponsor_id = none;
  role = none;
  role_id = none;
  country = none;
  event_id = none;
  group_by = none;
}

abbrev never : String → String → Bool
never pattern value = false

abbrev unsorted : Filters → User → User → Bool
unsorted f u v = true

abbrev no_role : User → Option ℕ
no_role u = none

list_participants_filtered_example :
    list_participants never unsorted no_role env (start []) all_with_vpn ≡ (
      if is_some
        (find (has_several (start [])) (page_of never unsorted no_role env (start []) all_with_vpn))
      then raised multiple_results_found
      else ok (
        select
            (by_any (start []) true)
            (page_of never unsorted no_role env (start []) all_with_vpn),
        count (is_listed never unsorted no_role env (start []) all_with_vpn) (start []).users,
      ))
list_participants_filtered_example =
    list_participants_filtered never unsorted no_role env (start []) all_with_vpn true refl

list_participants_raises :
    list_participants never unsorted no_role env (start []) all_with_vpn
    ≡ raised multiple_results_found
unfolding list_participants filter_vpn kept with_total by_vpn page_of is_listed is_sponsored
    has_role is_found is_confirmed has_activity sort_by insert_by select scalar_one_or_none
list_participants_raises = refl

normalize_email_gmail : normalize_email (λ t. t) (codes " a.b@gmail.com ") ≡ codes "ab@gmail.com"
unfolding normalize_email rsplit_at is_gmail ends_with text_eq strip lstrip rstrip is_space select
normalize_email_gmail = refl

normalize_email_other : normalize_email (λ t. t) (codes "a.b@x.org") ≡ codes "a.b@x.org"
unfolding normalize_email rsplit_at is_gmail ends_with text_eq strip lstrip rstrip is_space select
normalize_email_other = refl
