-- ===== src/Tests/Tickets.antt =====
-- Launch tickets in the household.
use thin_pi.Prelude.{◌*◌, ◌≡◌, refl, true, some, [], ◌∷◌, arith, find, bytes, text_eq, ok, err}
use thin_pi.Stamp.{second, stamp, parse_stamp}
use thin_pi.Policy.{PolicyStatus, evaluate, verdict}
use thin_pi.Db.{Db, Ticket, Manifest, Connection, ticket_invalid, DeviceRow}
use thin_pi.Store.Audit.{audit}
use thin_pi.Store.Access.{
  can_launch, permitted, policy_status, status_in, access_policy, launch_credential, in_group,
}
use thin_pi.Store.Launch.{
  create_launch_ticket, create_allowed, issue_ticket, insert_ticket, new_ticket,
  redeem_launch_ticket, redeem_transaction, redeem_found, redeem_row, ticket_matches,
  with_credential, manifest_of,
}
use thin_pi.Store.Launch.Gate.{Issued, create_launch_ticket_sound}
use thin_pi.Store.Launch.Redeem.{Redeemed, redeem_launch_ticket_sound}
use thin_pi.Store.Launch.RoundTrip.{create_redeem}
use thin_pi.Store.Launch.SingleUse.{redeem_launch_ticket_once}
use thin_pi.Tests.World.{config, home, desktop, tv}

abbrev status : PolicyStatus
status = record {
  allowed = true;
  reason = thin_pi.Policy.no_reason;
  timezone = "Australia/Sydney";
  daily_used_minutes = 0;
  daily_limit_minutes = 0;
  max_session_minutes = 0;
  effective_max_seconds = 0;
  idle_logout_minutes = 30;
}

abbrev ticket : Ticket
ticket = new_ticket config 1 1 1 status second 1 "tok"

abbrev with_ticket : Db
with_ticket = record home { launch_tickets = ticket ∷ []; next_ticket = 2 }

abbrev manifest : Manifest
manifest = manifest_of ticket desktop "dark"

abbrev after : Db
after = (redeem_launch_ticket config "tok" 1 [] (2 * second) (2 * second) with_ticket).1

runs :
    redeem_launch_ticket config "tok" 1 [] (2 * second) (2 * second) with_ticket
    ≡ (ok manifest, after)
unfolding redeem_launch_ticket redeem_transaction redeem_found redeem_row ticket_matches
    with_credential permitted launch_credential in_group parse_stamp stamp audit
runs = refl

redeem_launch_ticket_once_example :
    redeem_launch_ticket config "tok" 1 [] (3 * second) (3 * second) after
    ≡ (err ticket_invalid, after)
redeem_launch_ticket_once_example =
    redeem_launch_ticket_once config "tok" 1 1 [] [] (2 * second) (2 * second) (3 * second)
      (3 * second) with_ticket after after manifest (tt, tt) runs refl

redeem_launch_ticket_sound_example :
    (t : Ticket) × (c : Connection) × (find
        (ticket_matches config with_ticket "tok" 1)
        with_ticket.launch_tickets
      ≡ some t)
    × (t.token_hash ≡ "tok")
    × (t.device_id ≡ 1)
    × Redeemed config (2 * second) (2 * second) with_ticket after t c manifest
redeem_launch_ticket_sound_example =
    redeem_launch_ticket_sound config "tok" 1 [] (2 * second) (2 * second) with_ticket after
      manifest runs

abbrev issued_db : Db
issued_db =
    (create_launch_ticket config 1 1 (bytes "tv") [] second second second (some "tok") home).1

created :
    create_launch_ticket config 1 1 (bytes "tv") [] second second second (some "tok") home
    ≡ (ok "tok", issued_db)
unfolding create_launch_ticket create_allowed issue_ticket insert_ticket can_launch permitted
    in_group policy_status status_in evaluate access_policy audit text_eq
created = refl

issued : Issued config 1 1 (bytes "tv") second second home issued_db "tok" status tv
unfolding create_launch_ticket create_allowed issue_ticket insert_ticket can_launch permitted
    in_group policy_status status_in evaluate access_policy audit text_eq
issued = record {
  granted = refl;
  evaluated = refl;
  in_time = refl;
  device = refl;
  fresh = refl;
  written = refl;
}

create_launch_ticket_sound_example :
    (policy : PolicyStatus) × (d : DeviceRow) × Issued config 1 1
      (bytes "tv")
      second
      second
      home
      issued_db
      "tok"
      policy
      d
create_launch_ticket_sound_example =
    create_launch_ticket_sound config 1 1 (bytes "tv") [] second second second (some "tok") home
      issued_db "tok" created

create_redeem_example :
    (redeem_launch_ticket config "tok" 1 [] (2 * second) (2 * second) issued_db).0 ≡ ok manifest
unfolding with_credential launch_credential in_group
create_redeem_example =
    create_redeem config 1 1 (bytes "tv") [] [] second second second (2 * second) (2 * second)
      (some "tok") home issued_db "tok" status tv desktop "dark" manifest created issued refl tt
      refl refl (omega arith)
