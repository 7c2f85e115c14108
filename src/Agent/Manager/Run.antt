-- ===== src/Agent/Manager/Run.antt =====
-- agent/internal/launch/launch.go: the parts of `run` that change the manager, between its calls of
-- the controller, of the key store and of the client, and the answers to the two prompts.
use thin_pi.Prelude.{
  ℕ, String, Bool, true, false, not, ◌&&◌, ◌||◌, Option, none, some, List, [], ◌∷◌, ◌==◌,
  if◌then◌else◌, Bytes,
}
use thin_pi.Agent.Manager.{
  preparing, failed, ManagedSession, Manager, ssh_host_key_changed, audio_unavailable, is_stopping,
  session_of, edit, perform, choice_sent, set_session, remove_session, cancel_each,
}

-- The other sessions of a connection that are not being stopped.
abbrev pub duplicate : ℕ → ℕ → ManagedSession → Bool
duplicate id connection s =
    not (s.id == id) && (s.connection_id == connection && not (is_stopping s.state))

unfoldable pub duplicates : ℕ → ℕ → List ManagedSession → List ℕ
duplicates id connection [] = []
duplicates id connection (s ∷ ss) =
    let rest = duplicates id connection ss in
    if duplicate id connection s then s.id ∷ rest else rest

-- `run`, from the redeemed manifest to the state Preparing
unfoldable pub redeemed : ℕ → ℕ → Manager → Manager
unfolding edit duplicates cancel_each set_session
redeemed id connection m =
    let named =
      edit id (λ s. record s { connection_id = connection })
        (record m { controller_reachable = true }) in
    set_session id preparing "" (cancel_each (duplicates id connection named.sessions) named)

-- `run`, where the controller rejects the ticket
unfoldable pub rejected : ℕ → Manager → Manager
unfolding set_session
rejected id m =
    set_session id failed
      "The controller rejected this launch. Refresh your connections and try again."
      (record m { controller_reachable = false })

-- `run`, where the host key has changed
unfoldable pub host_key_changed : ℕ → String → Bytes → Manager → Manager
unfolding edit
host_key_changed id message fingerprint m =
    edit id
      (λ s. record s {
        pending_ssh = true;
        state = failed;
        last_error = message;
        confirmation = some (ssh_host_key_changed fingerprint);
      })
      m

-- awaitAudioChoice, up to the wait
unfoldable pub await_audio_choice : ℕ → Manager → Manager
unfolding edit
await_audio_choice id m =
    edit id
      (λ s. record s {
        audio_choice = true;
        state = failed;
        last_error = "Audio is unavailable for this connection. Continue without audio?";
        confirmation = some audio_unavailable;
      })
      m

-- awaitAudioChoice, once the choice has come
unfoldable pub audio_chosen : ℕ → Manager → Manager
unfolding edit
audio_chosen id m =
    edit id (λ s. record s { audio_choice = false; confirmation = none; last_error = "" }) m

abbrev pub awaits_audio : Option ManagedSession → Bool
awaits_audio none = false
awaits_audio (some s) = s.audio_choice && elim s.confirmation [
  | none ↦ false
  | some audio_unavailable ↦ true
  | some (ssh_host_key_changed f) ↦ false
]

-- ResolveAudioUnavailable
unfoldable pub resolve_audio_unavailable : ℕ → Bool → Manager → Bool × Manager
unfolding session_of edit perform
resolve_audio_unavailable id accept m =
    if awaits_audio (session_of id m)
    then (
      true,
      perform (choice_sent id accept) (edit id (λ s. record s { audio_choice = false }) m),
    )
    else (false, m)

abbrev pub awaits_host_key : Option ManagedSession → Bool
awaits_host_key none = false
awaits_host_key (some s) = s.pending_ssh && elim s.confirmation [
  | none ↦ false
  | some audio_unavailable ↦ false
  | some (ssh_host_key_changed f) ↦ true
]

-- ResolveSSHHostKeyChange; `stored` is whether the accepted key could be written.
unfoldable pub resolve_ssh_host_key_change : ℕ → Bool → Bool → Manager → Bool × Manager
unfolding session_of remove_session
resolve_ssh_host_key_change id accept stored m =
    if awaits_host_key (session_of id m) && (not accept || stored)
    then (true, remove_session id m)
    else (false, m)

-- OnStarted
unfoldable pub client_started : ℕ → ℕ → Manager → Manager
unfolding edit
client_started id pid m = edit id (λ s. record s { pid = pid }) m

-- OnAudioReady
unfoldable pub audio_ready : ℕ → Bytes → Manager → Manager
unfolding edit
audio_ready id sink m = edit id (λ s. record s { audio_sink = sink }) m
