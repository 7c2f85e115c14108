-- ===== src/Agent/Manager/Windows.antt =====
-- agent/internal/launch/launch.go: `Minimize` and `Resume`, each in its two halves. Between them the
-- window controller runs, and other requests may come.
use thin_pi.Prelude.{
  ℕ, Bool, true, false, not, ◌&&◌, ◌||◌, Option, none, some, ◌==◌, if◌then◌else◌, is_nil, Bytes,
}
use thin_pi.Agent.Manager.{
  ManagedSession, Manager, is_active, session_of, edit, perform, release_audio, audio_restored,
}

abbrev pub can_minimize : Option ManagedSession → Bool
can_minimize none = false
can_minimize (some s) = is_active s.state && not s.minimized

abbrev pub is_running : Option ManagedSession → Bool
is_running none = false
is_running (some s) = is_active s.state

-- Minimize up to the call of the window controller: whether it is called or simulated
unfoldable pub minimize_start : ℕ → Manager → Bool
unfolding session_of
minimize_start id m = elim (session_of id m) [
  | none ↦ false
  | some s ↦ can_minimize (some s) && (m.mock || not (s.pid == 0))
]

unfoldable pub suspend_minimized : Option ManagedSession → ℕ → Manager → Manager
unfolding release_audio
suspend_minimized none pid m = m
suspend_minimized (some s) pid m = release_audio s.audio_sink pid m

-- Minimize after the window is gone, with the state it left and the pid that was read before
unfoldable pub minimize_finish : ℕ → Bytes → ℕ → Manager → Bool × Manager
unfolding session_of edit suspend_minimized
minimize_finish id window pid m =
    if is_running (session_of id m)
    then (
      true,
      suspend_minimized (session_of id m) pid
          (edit id (λ s. record s { window_state = window; minimized = true }) m),
    )
    else (false, m)

abbrev pub can_resume : Option ManagedSession → Bool
can_resume none = false
can_resume (some s) = is_active s.state && (s.minimized && not (is_nil s.window_state))

unfoldable pub restore_audio : Option ManagedSession → Manager → Manager
unfolding perform
restore_audio none m = m
restore_audio (some s) m =
    if not (is_nil s.audio_sink) && m.has_audio
    then perform (audio_restored s.audio_sink s.pid) m
    else m

-- Resume up to the call of the window controller
unfoldable pub resume_start : ℕ → Manager → Bool × Manager
unfolding session_of restore_audio
resume_start id m =
    if can_resume (session_of id m) then (true, restore_audio (session_of id m) m) else (false, m)

-- Resume after it: `shown` is whether the window came back, the sink and the pid were read before.
unfoldable pub resume_finish : ℕ → Bytes → ℕ → Bool → Manager → Bool × Manager
unfolding session_of edit release_audio
resume_finish id sink pid shown m =
    if not m.mock && not shown
    then (false, release_audio sink pid m)
    else if is_running (session_of id m)
    then (true, edit id (λ s. record s { minimized = false }) m)
    else (false, release_audio sink 0 m)
