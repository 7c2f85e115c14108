-- ===== src/Agent/Manager/Replace.antt =====
-- A connection has one session: a new one replaces the others.
use thin_pi.Prelude.{
  ℕ, String, ◌≡◌, refl, sym, ◌∙◌, subst, ◌≢◌, ◌⊎◌, inl, inr, Bool, true, false, not, Option, none,
  some, List, [], ◌∷◌, arith, str_eq, ◌==◌, if◌then◌else◌, ==_iff, Bool-cases, Option-cases,
  find_sound, find, any, select, update_where, All, Bytes,
}
use thin_pi.Agent.Manager.{
  ManagedSession, Manager, preparing, is_stopping, session_of, edit, set_session, perform,
  release_audio, without, remove_session, ensure_stopped, ensure_session_stopped, stopped, terminal,
  end_session, cancel_found, cancel, cancel_each,
}
use thin_pi.Agent.Manager.Run.{duplicate, duplicates, redeemed}

pub release_audio-sessions :
    (sink : Bytes) (pid : ℕ) (m : Manager) → (release_audio sink pid m).sessions ≡ m.sessions
unfolding release_audio perform
release_audio-sessions sink pid m = ground arith

pub ensure_stopped-sessions :
    (o : Option ManagedSession) (attempts : ℕ) (m : Manager)
    → (ensure_stopped o attempts m).sessions ≡ m.sessions
unfolding ensure_stopped perform
ensure_stopped-sessions none attempts m = refl
ensure_stopped-sessions (some s) attempts m = ground arith

-- Cancelling stops the session, and takes it away if it had failed or waits for a key.
pub cancel_found-sessions :
    (s : ManagedSession) (m : Manager)
    → ((cancel_found (some s) m).1.sessions ≡ (edit s.id stopped m).sessions)
      ⊎ ((cancel_found (some s) m).1.sessions ≡ (without s.id (edit s.id stopped m)).sessions)
unfolding cancel_found end_session
cancel_found-sessions s m = elim (Bool-cases (terminal s)) [
  | inl over ↦ inr (
      release_audio-sessions s.audio_sink s.pid (end_session s m)
      ∙ rw over (
          unfold remove_session in release_audio-sessions _ _ (without s.id (edit s.id stopped m))))
  | inr live ↦ inl (
      release_audio-sessions s.audio_sink s.pid (end_session s m)
      ∙ rw live
          (unfold ensure_session_stopped in ensure_stopped-sessions _ 4 (edit s.id stopped m)))
]

pub All-select {ℓ μ} :
    {A : Type ℓ} (P : A → Type μ) (p : A → Bool) (xs : List A) → All P xs → All P (select p xs)
unfolding select
All-select P p [] h = tt
All-select P p (x ∷ xs) h = elim (Bool-cases (p x)) [
  | inl hit ↦ rw hit (h.0, All-select P p xs h.1)
  | inr miss ↦ rw miss (All-select P p xs h.1)
]

-- What `redeemed` has still to do: the other sessions of the connection are being stopped, or they
-- are among the ids.
abbrev Pending : ℕ → ℕ → List ℕ → ManagedSession → Type 0
Pending id connection ids s =
    s.id ≢ id
    → s.connection_id ≡ connection
    → (is_stopping s.state ≡ true) ⊎ (any (λ k. k == s.id) ids ≡ true)

module _ (id connection : ℕ) where
  Pending-found :
      (ids : List ℕ) (ss : List ManagedSession) (k : ℕ)
      → All (Pending id connection (k ∷ ids)) ss
      → All (Pending id connection ids) (update_where (λ s. s.id == k) stopped ss)
  unfolding update_where any
  Pending-found ids [] k h = tt
  Pending-found ids (s ∷ ss) k h = (
    (λ other same. elim (Bool-cases (s.id == k)) [
      | inl hit ↦ inl (ground arith)
      | inr miss ↦ rw miss (elim (h.0 (ground arith) (ground arith)) [
        | inl over ↦ inl over
        | inr left ↦ inr (ground arith)
      ])
    ]),
    Pending-found ids ss k h.1,
  )

  Pending-missing :
      (ids : List ℕ) (ss : List ManagedSession) (k : ℕ)
      → All (Pending id connection (k ∷ ids)) ss
      → find (λ s. s.id == k) ss ≡ none
      → All (Pending id connection ids) ss
  unfolding find any
  Pending-missing ids [] k h e = tt
  Pending-missing ids (s ∷ ss) k h e = elim (Bool-cases (s.id == k)) [
    | inl hit ↦ absurd (ground arith)
    | inr miss ↦ (
      (λ other same. elim (h.0 other same) [ inl over ↦ inl over | inr left ↦ inr (ground arith) ]),
      Pending-missing ids ss k h.1 (rw miss at e),
    )
  ]

  cancel-Pending :
      (ids : List ℕ) (k : ℕ) (m : Manager)
      → All (Pending id connection (k ∷ ids)) m.sessions
      → All (Pending id connection ids) (cancel k m).1.sessions
  unfolding cancel session_of
  cancel-Pending ids k m h = elim (Option-cases (find (λ s. s.id == k) m.sessions)) [
    | inl missing ↦ rw missing (unfold cancel_found in Pending-missing ids m.sessions k h missing)
    | inr (s, found) ↦
        let same : s.id ≡ k = (==_iff s.id k).0 (find_sound (λ s. s.id == k) m.sessions s found) in
        let edited : All (Pending id connection ids) (edit s.id stopped m).sessions =
          unfold edit in
          Pending-found ids m.sessions s.id
            (subst (λ j. All (Pending id connection (j ∷ ids)) m.sessions) (sym same) h) in
        rw found (elim (cancel_found-sessions s m) [
          | inl left ↦ subst (All (Pending id connection ids)) (sym left) edited
          | inr left ↦ subst (All (Pending id connection ids)) (sym left) (
              unfold without in
              All-select (Pending id connection ids) (λ r. not (r.id == s.id))
                (edit s.id stopped m).sessions edited)
        ])
  ]

  cancel_each-Pending :
      (ids : List ℕ) (m : Manager)
      → All (Pending id connection ids) m.sessions
      → All (Pending id connection []) (cancel_each ids m).sessions
  unfolding cancel_each
  cancel_each-Pending [] m h = h
  cancel_each-Pending (k ∷ ids) m h =
      cancel_each-Pending ids (cancel k m).1 (cancel-Pending ids k m h)

  Pending-weaken :
      (k : ℕ) (ids : List ℕ) (ss : List ManagedSession)
      → All (Pending id connection ids) ss
      → All (Pending id connection (k ∷ ids)) ss
  unfolding any
  Pending-weaken k ids [] h = tt
  Pending-weaken k ids (s ∷ ss) h = (
    (λ other same. elim (h.0 other same) [ inl over ↦ inl over | inr left ↦ inr (ground arith) ]),
    Pending-weaken k ids ss h.1,
  )

  duplicates_step :
      (s : ManagedSession) (ss : List ManagedSession)
      → ((duplicate id connection s ≡ true)
          × (duplicates id connection (s ∷ ss) ≡ s.id ∷ duplicates id connection ss))
        ⊎ ((duplicate id connection s ≡ false)
            × (duplicates id connection (s ∷ ss) ≡ duplicates id connection ss))
  unfolding duplicates
  duplicates_step s ss = elim (Bool-cases (duplicate id connection s)) [
    | inl twin ↦ inl (twin, rw twin)
    | inr alone ↦ inr (alone, rw alone)
  ]

  duplicates-Pending :
      (ss : List ManagedSession) → All (Pending id connection (duplicates id connection ss)) ss
  duplicates-Pending [] = tt
  duplicates-Pending (s ∷ ss) = elim (duplicates_step s ss) [
    | inl (twin, step) ↦
        subst (λ ids. All (Pending id connection ids) (s ∷ ss)) (sym step)
          (
            (λ other same. inr (unfold any in ground arith)),
            Pending-weaken s.id (duplicates id connection ss) ss (duplicates-Pending ss),
          )
    | inr (alone, step) ↦
        subst (λ ids. All (Pending id connection ids) (s ∷ ss)) (sym step)
          ((λ other same. inl (ground arith)), duplicates-Pending ss)
  ]

  prepared :
      (message : String) (ss : List ManagedSession)
      → All (Pending id connection []) ss
      → All
          (λ s. s.id ≢ id → s.connection_id ≡ connection → is_stopping s.state ≡ true)
          (update_where
            (λ s. s.id == id)
            (λ s. record s {
              state = preparing;
              last_error = if str_eq message "" then s.last_error else message;
            })
            ss)
  unfolding update_where any
  prepared message [] h = tt
  prepared message (s ∷ ss) h = (
    (λ other same. elim (Bool-cases (s.id == id)) [
      | inl hit ↦ absurd (ground arith)
      | inr miss ↦ rw miss (elim (h.0 (ground arith) (ground arith)) [
        | inl over ↦ over
        | inr none_left ↦ absurd (ground arith)
      ])
    ]),
    prepared message ss h.1,
  )

-- Once a session's manifest is redeemed and the duplicates are cancelled, with no other request in
-- between, every other session of the same connection is being stopped.
pub redeemed_replaces :
    (id connection : ℕ) (m : Manager)
    → All
        (λ s. s.id ≢ id → s.connection_id ≡ connection → is_stopping s.state ≡ true)
        (redeemed id connection m).sessions
unfolding redeemed set_session edit
redeemed_replaces id connection m =
    prepared id connection "" (cancel_each (duplicates id connection named.sessions) named).sessions
      (cancel_each-Pending id connection (duplicates id connection named.sessions) named
        (duplicates-Pending id connection named.sessions))
  where
    named : Manager
    named =
        edit id (λ s. record s { connection_id = connection })
          (record m { controller_reachable = true })
