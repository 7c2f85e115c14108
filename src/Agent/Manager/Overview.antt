-- ===== src/Agent/Manager/Overview.antt =====
-- agent/internal/launch/launch.go: `Status` and `HasSessions`, and `Cancel` of every session. The
-- sessions are listed by their counters, which is the order of the texts of ids made at different
-- times.
use thin_pi.Prelude.{
  ℕ, String, Bool, true, false, not, ◌||◌, Option, none, some, List, [], ◌∷◌, map, ltb,
  if◌then◌else◌, is_nil, any, select, update_where, Bytes, text_eq,
}
use thin_pi.Agent.Manager.{
  State, idle, is_active, Confirmation, ManagedSession, Manager, terminal, stopped, remove_session,
  ensure_session_stopped, release_audio,
}

pub record Status : Type 0 where
  pub state : State
  pub active_session : Option ℕ
  pub minimized : Bool
  pub last_error : String
  pub confirmation : Option Confirmation
  pub sessions : List ManagedSession

abbrev pub is_idle : State → Bool
is_idle idle = true
is_idle _ = false

-- One round of the loop of Status over the sessions
unfoldable pub look_at : ManagedSession → Status → Status
look_at s status =
    if is_idle status.state || is_active s.state
    then record status {
      state = s.state;
      active_session = some s.id;
      minimized = s.minimized;
      last_error = s.last_error;
      confirmation = s.confirmation;
    }
    else status

unfoldable pub look_at_all : List ManagedSession → Status → Status
unfolding look_at
look_at_all [] status = status
look_at_all (s ∷ ss) status = look_at_all ss (look_at s status)

unfoldable pub insert_by_id : ManagedSession → List ManagedSession → List ManagedSession
insert_by_id s [] = s ∷ []
insert_by_id s (r ∷ rs) =
    let rest = insert_by_id s rs in if ltb r.id s.id then r ∷ rest else s ∷ r ∷ rs

unfoldable pub sort_by_id : List ManagedSession → List ManagedSession
unfolding insert_by_id
sort_by_id [] = []
sort_by_id (s ∷ ss) = insert_by_id s (sort_by_id ss)

-- Status
unfoldable pub status : Manager → Status
unfolding look_at_all sort_by_id
status m = look_at_all m.sessions (record {
  state = idle;
  active_session = none;
  minimized = false;
  last_error = "";
  confirmation = none;
  sessions = sort_by_id m.sessions;
})

-- HasSessions
unfoldable pub has_sessions : Manager → Bool
has_sessions m = not (is_nil m.sessions)

abbrev pub ids_where : (ManagedSession → Bool) → List ManagedSession → List ℕ
ids_where p ss = map (λ s. s.id) (select p ss)

unfoldable pub sinks : List ManagedSession → List Bytes
unfolding any text_eq
sinks [] = []
sinks (s ∷ ss) =
    let rest = sinks ss in
    if is_nil s.audio_sink || any (λ k. text_eq k s.audio_sink) rest
    then rest
    else s.audio_sink ∷ rest

unfoldable pub remove_each : List ℕ → Manager → Manager
remove_each [] m = m
remove_each (id ∷ ids) m = remove_each ids (remove_session id m)

unfoldable pub stop_each : List ℕ → Manager → Manager
stop_each [] m = m
stop_each (id ∷ ids) m = stop_each ids (ensure_session_stopped id 4 m)

unfoldable pub release_each : List Bytes → Manager → Manager
release_each [] m = m
release_each (sink ∷ rest) m = release_each rest (release_audio sink 0 m)

-- Cancel of every session, with an empty id
unfoldable pub cancel_all : Manager → Bool × Manager
unfolding select update_where sinks remove_each stop_each release_each
cancel_all m = if is_nil m.sessions then (false, m) else (
  true,
  release_each (sinks m.sessions) (
      stop_each (ids_where (λ s. not (terminal s)) m.sessions) (
        remove_each (ids_where terminal m.sessions)
          (record m { sessions = update_where (λ s. true) stopped m.sessions }))),
)
