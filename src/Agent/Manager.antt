-- ===== src/Agent/Manager.antt =====
-- agent/internal/launch/launch.go, `Manager`: the sessions of a device and the requests on them. A
-- function here is what a request does while it holds the lock, followed by what it does to the
-- processes and the audio, which is written to `effects`; `Minimize` and `Resume` release the lock
-- between their two halves, and so are two functions each. The single steps of `Cancel`, which
-- takes the lock again to remove the session or to stop the process, are taken as one here. The text of
-- a session's id, of a time and a counter below 2 ^ 64, is kept as one number. The map of sessions is a
-- list: where the order of a map's keys matters to the effects, any order may occur, and the list has one.
pub mod Run
pub mod Replace
pub mod Windows
pub mod Overview
use thin_pi.Prelude.{
  ℕ, zero, suc, ◌+◌, ◌-◌, ◌*◌, ◌/◌, ◌%◌, ◌^◌, ◌≤◌, ◌<◌, max, String, ◌≡◌, refl, sym, ap, ◌∙◌, subst,
  ◌≢◌, ◌↔◌, ◌⊎◌, inl, inr, Bool, true, false, not, ◌&&◌, ◌||◌, Option, none, some, List, [], ◌∷◌,
  ◌++◌, map, arith, str_eq, str_eq_iff, ltb, leb, ◌==◌, if◌then◌else◌, ltb→lt, lt→ltb, leb→le,
  ==_iff, ==_refl, Bool-cases, Option-cases, &&_left, &&_right, is_some, length, length-append,
  find-All, map_option, find-update_where, any-true, find-append, any_weaken, count_where-append,
  count_where_none, find_sound, find-any, any-false, All-update_where, All-append, All-map, is_nil,
  find, any, select, count_where, update_where, All, Bytes, bytes, text_eq, text_lt, lower_byte,
  to_lower, is_space, trim_left, trim_space, contains_byte, contains_any, text_eq_iff, Result, ok,
  err, Exec, pure, raise, continue, ◌>>=◌, ◌>>◌, gets, modify, require, or_fail, lift, roll_back,
  transact, Result-cases,
}

pub data State : Type 0 where
  idle redeeming preparing starting active stopping failed : State

pub data Confirmation : Type 0 where
  ssh_host_key_changed : Bytes → Confirmation
  audio_unavailable : Confirmation

pub record ManagedSession : Type 0 where
  pub id : ℕ
  pub connection_id : ℕ
  pub state : State
  pub minimized : Bool
  pub last_error : String
  pub confirmation : Option Confirmation
  pub cancelled : Bool
  pub pid : ℕ
  pub window_state : Bytes
  pub pending_ssh : Bool
  pub audio_choice : Bool
  pub audio_sink : Bytes

pub data Effect : Type 0 where
  audio_suspended : Bytes → ℕ → Effect
  audio_restored : Bytes → ℕ → Effect
  terminate : ℕ → Effect
  stop_again : ℕ → ℕ → Effect
  choice_sent : ℕ → Bool → Effect

pub record Manager : Type 0 where
  pub sessions : List ManagedSession
  pub next_session : ℕ
  pub controller_reachable : Bool
  pub mock : Bool
  pub has_audio : Bool
  pub effects : List Effect

abbrev pub is_failed : State → Bool
is_failed failed = true
is_failed _ = false

abbrev pub is_active : State → Bool
is_active active = true
is_active _ = false

abbrev pub is_stopping : State → Bool
is_stopping stopping = true
is_stopping _ = false

unfoldable pub session_of : ℕ → Manager → Option ManagedSession
unfolding find
session_of id m = find (λ s. s.id == id) m.sessions

unfoldable pub edit : ℕ → (ManagedSession → ManagedSession) → Manager → Manager
unfolding update_where
edit id f m = record m { sessions = update_where (λ s. s.id == id) f m.sessions }

unfoldable pub perform : Effect → Manager → Manager
perform e m = record m { effects = m.effects ++ (e ∷ []) }

-- setSession, with the text of the error or "" for none
unfoldable pub set_session : ℕ → State → String → Manager → Manager
unfolding edit
set_session id state message m =
    edit id
      (λ s. record s {
        state = state;
        last_error = if str_eq message "" then s.last_error else message;
      })
      m

-- audioSinkInUseLocked
unfoldable pub sink_in_use : Bytes → List ManagedSession → Bool
unfolding any text_eq
sink_in_use sink sessions =
    any (λ s. text_eq s.audio_sink sink && (is_active s.state && not s.minimized)) sessions

-- releaseAudioIfUnused
unfoldable pub release_audio : Bytes → ℕ → Manager → Manager
unfolding sink_in_use perform
release_audio sink pid m =
    if is_nil sink || (not m.has_audio || sink_in_use sink m.sessions)
    then m
    else perform (audio_suspended sink pid) m

abbrev pub sink_of : Option ManagedSession → Bytes
sink_of none = []
sink_of (some s) = s.audio_sink

abbrev pub pid_of : Option ManagedSession → ℕ
pid_of none = 0
pid_of (some s) = s.pid

unfoldable pub without : ℕ → Manager → Manager
unfolding select
without id m = record m { sessions = select (λ s. not (s.id == id)) m.sessions }

-- removeSession
unfoldable pub remove_session : ℕ → Manager → Manager
unfolding session_of without release_audio
remove_session id m =
    release_audio (sink_of (session_of id m)) (pid_of (session_of id m)) (without id m)

-- The id "<nanoseconds>-<counter>" of a new session, as the number that stands for the pair.
abbrev pub session_id : ℕ → ℕ → ℕ
session_id now counter = now * 2 ^ 64 + counter

-- Launch at the time `now`, up to the start of `run`; the counter is a uint64.
unfoldable pub launch : ℕ → Manager → ℕ × Manager
unfolding without
launch now m =
    let counter = (m.next_session + 1) % 2 ^ 64 in
    (
      session_id now counter,
      record m {
        next_session = counter;
        sessions =
            (without (session_id now counter) m).sessions
            ++ (record {
              id = session_id now counter;
              connection_id = 0;
              state = redeeming;
              minimized = false;
              last_error = "";
              confirmation = none;
              cancelled = false;
              pid = 0;
              window_state = [];
              pending_ssh = false;
              audio_choice = false;
              audio_sink = [];
            }
                ∷ []);
      },
    )

-- ensureSessionStopped; the next attempt comes by a timer.
unfoldable pub ensure_stopped : Option ManagedSession → ℕ → Manager → Manager
unfolding perform
ensure_stopped none attempts m = m
ensure_stopped (some s) attempts m =
    if is_stopping s.state
    then (let ended = perform (terminate s.pid) m in
        if ltb 1 attempts then perform (stop_again s.id (attempts - 1)) ended else ended)
    else m

unfoldable pub ensure_session_stopped : ℕ → ℕ → Manager → Manager
unfolding session_of ensure_stopped
ensure_session_stopped id attempts m = ensure_stopped (session_of id m) attempts m

abbrev pub terminal : ManagedSession → Bool
terminal s = is_failed s.state || s.pending_ssh

abbrev pub stopped : ManagedSession → ManagedSession
stopped s = record s { state = stopping; cancelled = true }

unfoldable pub end_session : ManagedSession → Manager → Manager
unfolding edit remove_session ensure_session_stopped
end_session s m =
    if terminal s
    then remove_session s.id (edit s.id stopped m)
    else ensure_session_stopped s.id 4 (edit s.id stopped m)

-- Cancel of one session; `false` is the error "no active session".
unfoldable pub cancel_found : Option ManagedSession → Manager → Bool × Manager
unfolding end_session release_audio
cancel_found none m = (false, m)
cancel_found (some s) m = (true, release_audio s.audio_sink s.pid (end_session s m))

unfoldable pub cancel : ℕ → Manager → Bool × Manager
unfolding session_of cancel_found
cancel id m = cancel_found (session_of id m) m

unfoldable pub cancel_each : List ℕ → Manager → Manager
unfolding cancel
cancel_each [] m = m
cancel_each (id ∷ ids) m = cancel_each ids (cancel id m).1
