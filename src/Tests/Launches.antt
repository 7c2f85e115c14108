-- ===== src/Tests/Launches.antt =====
-- Two launches of one connection.
use thin_pi.Prelude.{◌≡◌, ◌≢◌, true, false, [], All}
use thin_pi.Agent.Manager.{Manager, is_stopping, launch}
use thin_pi.Agent.Manager.Run.{redeemed}
use thin_pi.Agent.Manager.Replace.{redeemed_replaces}

abbrev fresh : Manager
fresh = record {
  sessions = [];
  next_session = 0;
  controller_reachable = true;
  mock = false;
  has_audio = true;
  effects = [];
}

abbrev first : Manager
first = redeemed 1 7 (launch 0 fresh).1

abbrev second_launch : Manager
second_launch = (launch 0 first).1

redeemed_replaces_example :
    All
      (λ s. s.id ≢ 2 → s.connection_id ≡ 7 → is_stopping s.state ≡ true)
      (redeemed 2 7 second_launch).sessions
redeemed_replaces_example = redeemed_replaces 2 7 second_launch
