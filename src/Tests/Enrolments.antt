-- ===== src/Tests/Enrolments.antt =====
-- One-time codes and accounts in the household: enrolments, handoffs, maintenance, profiles.
use thin_pi.Prelude.{
  ◌≤◌, ◌<◌, ◌&&◌, ◌==◌, str_eq, ◌≡◌, refl, ◌≢◌, true, false, none, some, [], ◌∷◌, ◌++◌, is_some,
  length, find, All, bytes, text_eq, to_lower, trim_space, ok, err,
}
use thin_pi.Stamp.{second, minute, stamp, parse_stamp}
use thin_pi.Db.{
  Db, User, UserRow, Device, SessionRow, Handoff, MaintenanceTicket, EnrolmentToken, Error,
  unauthorised, ticket_invalid,
}
use thin_pi.Store.Audit.{audit}
use thin_pi.Store.Sessions.{insert_session}
use thin_pi.Store.Sessions.Login.{new_session}
use thin_pi.Store.Users.{
  create_user, insert_user, name_taken, valid_account, clean_username, is_identifier,
  update_own_profile, profile_transaction, write_profile, revoke_others,
}
use thin_pi.Store.Users.Profile.{update_own_profile_revokes}
use thin_pi.Store.Users.Names.{UniqueNames, create_user_names}
use thin_pi.Store.Handoffs.{
  redeem_admin_handoff, redeem_handoff_transaction, redeem_handoff_row, handoff_with,
  handoff_minutes, active_admin,
}
use thin_pi.Store.Handoffs.Once.{
  opened, redeemed_handoffs, redeem_admin_handoff_sound, redeem_admin_handoff_once,
}
use thin_pi.Store.Maintenance.{
  redeem_maintenance_ticket, redeem_maintenance_transaction, redeem_maintenance_row,
  maintenance_with, new_maintenance,
}
use thin_pi.Store.Maintenance.Once.{
  redeemed_maintenance, redeem_maintenance_ticket_sound, redeem_maintenance_ticket_once,
}
use thin_pi.Store.Devices.{
  enrol_device, enrol_transaction, valid_device, insert_device, spend_enrolment, device_by_token,
  new_device,
}
use thin_pi.Store.Devices.Enrolment.{
  Enrolled, enrol_device_sound, enrol_device_authenticates, enrol_device_once,
}
use thin_pi.Tests.World.{config, home, admin}

abbrev invited : Db
invited = record home {
  enrolment_tokens =
      record {
        id = 1;
        token_hash = "code";
        name = bytes "Study";
        expires_at = stamp minute;
        redeemed_at = none;
        created_at = stamp 0;
      }
      ∷ [];
}

abbrev study : Device
study = (new_device config 2 (bytes "pi") (bytes "Study") "pi-key" second).device

abbrev enrolled : Db
enrolled =
    (enrol_device config "code" (bytes "pi") (bytes "Study") [] second second (some "pi-key")
      invited).1

enrols :
    enrol_device config "code" (bytes "pi") (bytes "Study") [] second second (some "pi-key") invited
    ≡ (ok ("pi-key", study), enrolled)
unfolding enrol_device enrol_transaction valid_device insert_device spend_enrolment find parse_stamp
    stamp audit
enrols = refl

enrol_device_sound_example :
    (t : EnrolmentToken) × Enrolled config "code"
      (bytes "pi")
      (bytes "Study")
      second
      second
      invited
      enrolled
      "pi-key"
      study
      t
enrol_device_sound_example =
    enrol_device_sound config "code" (bytes "pi") (bytes "Study") [] second second (some "pi-key")
      invited enrolled "pi-key" study enrols

enrol_device_authenticates_example : device_by_token config "pi-key" enrolled ≡ (ok study, enrolled)
enrol_device_authenticates_example =
    enrol_device_authenticates config "code" (bytes "pi") (bytes "Study") [] second second
      (some "pi-key") invited enrolled "pi-key" study enrols

enrol_device_once_example :
    (e : Error) × (enrol_device config "code"
        (bytes "pj")
        (bytes "Den")
        []
        second
        second
        (some "pj-key")
        enrolled
      ≡ (err e, enrolled))
enrol_device_once_example =
    enrol_device_once config "code" (bytes "pi") (bytes "pj") (bytes "Study") (bytes "Den") [] []
      second second second second (some "pi-key") (some "pj-key") invited enrolled enrolled "pi-key"
      study enrols refl

abbrev handed : Db
handed = record home {
  handoffs =
      record {
        token_hash = "code";
        user_id = 1;
        expires_at = stamp minute;
        redeemed_at = none;
        created_at = stamp 0;
      }
      ∷ [];
}

abbrev over : Db
over = (redeem_admin_handoff config "code" [] second second (some "token") (some "form") handed).1

hands_over :
    redeem_admin_handoff config "code" [] second second (some "token") (some "form") handed
    ≡ (ok "token", over)
unfolding redeem_admin_handoff redeem_handoff_transaction redeem_handoff_row handoff_with
    handoff_minutes active_admin insert_session audit parse_stamp stamp
hands_over = refl

redeem_admin_handoff_sound_example :
    (h : Handoff) × (handoff_with handed "code" ≡ some h)
    × (active_admin handed h.user_id ≡ true)
    × (h.redeemed_at ≡ none)
    × (second < parse_stamp h.expires_at)
    × (over.sessions ≡ handed.sessions ++ (opened config handed h second "token" "form" ∷ []))
    × (over.handoffs ≡ redeemed_handoffs "code" second handed.handoffs)
redeem_admin_handoff_sound_example =
    redeem_admin_handoff_sound config "code" [] second second "token" "form" "token" handed over
      hands_over

redeem_admin_handoff_once_example :
    redeem_admin_handoff config "code" [] second second (some "again") (some "form") over
    ≡ (err unauthorised, over)
redeem_admin_handoff_once_example =
    redeem_admin_handoff_once config "code" [] [] second second second second "token" "form" "token"
      "again" "form" handed over over hands_over refl

abbrev serviced : Db
serviced = record home { maintenance_tickets = new_maintenance config 1 1 0 "code" ∷ [] }

abbrev started : Db
started = (redeem_maintenance_ticket config "code" 1 [] second second serviced).1

starts : redeem_maintenance_ticket config "code" 1 [] second second serviced ≡ (ok tt, started)
unfolding redeem_maintenance_ticket redeem_maintenance_transaction redeem_maintenance_row
    maintenance_with active_admin audit parse_stamp stamp
starts = refl

redeem_maintenance_ticket_sound_example :
    (t : MaintenanceTicket) × (find
        (λ u. str_eq u.token_hash "code" && (u.device_id == 1 && active_admin serviced u.user_id))
        serviced.maintenance_tickets
      ≡ some t)
    × (t.token_hash ≡ "code")
    × (t.device_id ≡ 1)
    × (active_admin serviced t.user_id ≡ true)
    × (t.redeemed_at ≡ none)
    × (second < parse_stamp t.expires_at)
    × (started.maintenance_tickets
        ≡ redeemed_maintenance "code" second serviced.maintenance_tickets)
redeem_maintenance_ticket_sound_example =
    redeem_maintenance_ticket_sound config "code" 1 [] second second serviced started starts

redeem_maintenance_ticket_once_example :
    redeem_maintenance_ticket config "code" 2 [] second second started
    ≡ (err ticket_invalid, started)
redeem_maintenance_ticket_once_example =
    redeem_maintenance_ticket_once config "code" 1 2 [] [] second second second second serviced
      started started starts refl

abbrev added : Db
added =
    (create_user config (bytes "Bea") (bytes "Bea") (bytes "secret") false true [] second home).1

create_user_names_example :
    UniqueNames added.users
    × ((u : UserRow) × (added.users ≡ home.users ++ (u ∷ []))
        × (u.id ≡ 2)
        × (u.username ≡ clean_username (bytes "Bea"))
        × (is_identifier u.username ≡ true)
        × (length u.username ≤ 64))
unfolding create_user insert_user name_taken valid_account is_identifier trim_space
create_user_names_example =
    create_user_names config (bytes "Bea") (bytes "Bea") (bytes "secret") false true [] second home
      added 2 refl (tt, tt)

abbrev mine : SessionRow
mine = new_session config admin second home "token" "form"

abbrev two_sessions : Db
two_sessions = record home { sessions = mine ∷ record mine { id = 2; token_hash = "other" } ∷ [] }

abbrev renamed : Db
renamed =
    (update_own_profile config 1 1 (bytes "admin") (bytes "Root") (bytes "thinpi") (bytes "secret")
      [] second two_sessions).1

abbrev root : User
root = record admin.user { display_name = bytes "Root" }

renames :
    update_own_profile config 1 1
      (bytes "admin")
      (bytes "Root")
      (bytes "thinpi")
      (bytes "secret")
      []
      second
      two_sessions
    ≡ (ok root, renamed)
unfolding update_own_profile profile_transaction write_profile revoke_others valid_account
    trim_space find audit
renames = refl

update_own_profile_revokes_example :
    All (λ s. s.user_id ≡ 1 → s.id ≢ 1 → is_some s.revoked_at ≡ true) renamed.sessions
unfolding find text_eq trim_space to_lower
update_own_profile_revokes_example =
    update_own_profile_revokes config 1 1 (bytes "admin") (bytes "Root") (bytes "thinpi")
      (bytes "secret") [] second two_sessions renamed root admin renames refl refl
