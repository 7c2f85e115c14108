-- ===== src/Migrations/Settled.antt =====
-- controller/internal/database/database.go: when there is nothing left to do for an entry.
use thin_pi.Prelude.{
  ℕ, ◌≡◌, refl, sym, ap, ◌∙◌, subst, inl, inr, Bool, true, false, not, ◌||◌, Option, none, some,
  List, [], ◌∷◌, ◌++◌, arith, ◌==◌, ==_refl, Bool-cases, Option-cases, is_some, any, All, Result,
  ok, err, continue,
}
use thin_pi.Migrations.{
  Entry, MigrationError, State, Engine, is_script, prefix, applied, commit, apply_version,
  apply_entry, apply_all,
}

any_longer :
    {A : Type 0} (p : A → Bool) (xs ys : List A) → any p xs ≡ true → any p (xs ++ ys) ≡ true
unfolding any
any_longer p [] ys h = absurd (ground arith)
any_longer p (x ∷ xs) ys h = ground (arith, any_longer p xs ys)

any_last :
    {A : Type 0} (p : A → Bool) (xs : List A) (y : A) → p y ≡ true → any p (xs ++ (y ∷ [])) ≡ true
unfolding any
any_last p [] y h = ground arith
any_last p (x ∷ xs) y h = ground (arith, any_last p xs y)

pub err_made :
    (e : MigrationError) (r : Result MigrationError (Unit {0})) → r ≡ err e → r ≡ ok tt → ⊥
err_made e r h k = cc

module _ {S : Type 0} (g : Engine S) where
  abbrev pub version_settled : Option ℕ → State S → Bool
  version_settled none s = false
  version_settled (some v) s = applied v s

  -- Whether the loop has nothing to do for an entry.
  unfoldable pub settled : Entry → State S → Bool
  unfolding is_script applied prefix
  settled e s = (e.is_dir || not (is_script e.name)) || version_settled (g.atoi (prefix e.name)) s

  commit-applied :
      (e : Entry) (n v : ℕ) (o : Option S) (s : State S)
      → applied v s ≡ true
      → applied v (commit g e n o s).1 ≡ true
  unfolding commit applied
  commit-applied e n v none s h = h
  commit-applied e n v (some after) s h = elim (Bool-cases (g.keys_hold after)) [
    | inl hold ↦ rw hold (any_longer (λ k. k == v) s.versions (n ∷ []) h)
    | inr break ↦ rw break (any_longer (λ k. k == v) s.versions (n ∷ []) h)
  ]

  -- A script that runs is recorded, whether the keys hold after it or not.
  commit-applies :
      (e : Entry) (v : ℕ) (o : Option S) (s : State S)
      → is_some o ≡ true
      → applied v (commit g e v o s).1 ≡ true
  unfolding commit applied
  commit-applies e v none s h = absurd (ground arith)
  commit-applies e v (some after) s h = elim (Bool-cases (g.keys_hold after)) [
    | inl hold ↦ rw hold (any_last (λ k. k == v) s.versions v (==_refl v))
    | inr break ↦ rw break (any_last (λ k. k == v) s.versions v (==_refl v))
  ]

  commit-runs :
      (e : Entry) (v : ℕ) (o : Option S) (s s' : State S)
      → commit g e v o s ≡ (ok tt, s')
      → is_some o ≡ true
  unfolding commit
  commit-runs e v none s s' h = cc
  commit-runs e v (some after) s s' h = refl

  apply_version-applied :
      (e : Entry) (v : ℕ) (o : Option ℕ) (s : State S)
      → applied v s ≡ true
      → applied v (apply_version g e o s).1 ≡ true
  unfolding apply_version
  apply_version-applied e v none s h = h
  apply_version-applied e v (some n) s h = elim (Bool-cases (applied n s)) [
    | inl done ↦ rw done h
    | inr fresh ↦ rw fresh (commit-applied e n v (g.execute e.body s.tables) s h)
  ]

  apply_entry-applied :
      (e : Entry) (v : ℕ) (s : State S)
      → applied v s ≡ true
      → applied v (apply_entry g e s).1 ≡ true
  unfolding apply_entry
  apply_entry-applied e v s h = elim (Bool-cases (e.is_dir || not (is_script e.name))) [
    | inl skipped ↦ rw skipped h
    | inr script ↦ rw script (apply_version-applied e v (g.atoi (prefix e.name)) s h)
  ]

  pub apply_version-settles :
      (e : Entry) (o : Option ℕ) (s : State S)
      → is_some o ≡ true
      → is_some (g.execute e.body s.tables) ≡ true
      → version_settled o (apply_version g e o s).1 ≡ true
  unfolding apply_version
  apply_version-settles e none s named runs = absurd (ground arith)
  apply_version-settles e (some v) s named runs = elim (Bool-cases (applied v s)) [
    | inl done ↦ rw (done, done)
    | inr fresh ↦ rw fresh (commit-applies e v (g.execute e.body s.tables) s runs)
  ]

  version_succeeds :
      (e : Entry) (o : Option ℕ) (s s' : State S)
      → apply_version g e o s ≡ (ok tt, s')
      → version_settled o s' ≡ true
  unfolding apply_version
  version_succeeds e none s s' h = cc
  version_succeeds e (some v) s s' h = elim (Bool-cases (applied v s)) [
    | inl done ↦ subst (λ t. applied v t ≡ true) (ap (λ x. x.1) (rw done at h)) done
    | inr fresh ↦
        let made = rw fresh at h in
        subst (λ t. applied v t ≡ true) (ap (λ x. x.1) made)
          (commit-applies e v (g.execute e.body s.tables) s (commit-runs e v _ s s' made))
  ]

  entry_succeeds :
      (e : Entry) (s s' : State S) → apply_entry g e s ≡ (ok tt, s') → settled e s' ≡ true
  unfolding apply_entry settled
  entry_succeeds e s s' h = elim (Bool-cases (e.is_dir || not (is_script e.name))) [
    | inl skipped ↦ ground arith
    | inr script ↦ rw script (version_succeeds e (g.atoi (prefix e.name)) s s' (rw script at h))
  ]

  pub settled-skips :
      (e : Entry) (s : State S) → settled e s ≡ true → apply_entry g e s ≡ (ok tt, s)
  unfolding apply_entry apply_version settled
  settled-skips e s h = elim (Bool-cases (e.is_dir || not (is_script e.name))) [
    | inl skipped ↦ rw skipped
    | inr script ↦ elim (Option-cases (g.atoi (prefix e.name))) [
      | inl nameless ↦ absurd (ground arith)
      | inr (v, named) ↦ ground arith
    ]
  ]

  -- The later entries of a directory leave an entry settled.
  pub settled-kept :
      (e d : Entry) (s : State S) → settled e s ≡ true → settled e (apply_entry g d s).1 ≡ true
  unfolding settled
  settled-kept e d s h = elim (Bool-cases (e.is_dir || not (is_script e.name))) [
    | inl skipped ↦ rw skipped
    | inr script ↦ rw script (version_kept (g.atoi (prefix e.name)) (rw script at h))
  ]
    where
      version_kept :
          (o : Option ℕ)
          → version_settled o s ≡ true
          → version_settled o (apply_entry g d s).1 ≡ true
      version_kept none k = absurd (ground arith)
      version_kept (some v) k = apply_entry-applied d v s k

  continue_kept :
      (P : State S → Type 0) (x : Result MigrationError (Unit {0}) × State S)
      (f : State S → Result MigrationError (Unit {0}) × State S)
      → P x.1
      → ((t : State S) → P t → P (f t).1)
      → P (continue x (λ u. f)).1
  continue_kept P (ok u, t) f h k = k t h
  continue_kept P (err e, t) f h k = h

  pub all_kept :
      (ds : List Entry) (e : Entry) (s : State S)
      → settled e s ≡ true
      → settled e (apply_all g ds s).1 ≡ true
  unfolding apply_all
  all_kept [] e s h = h
  all_kept (d ∷ ds) e s h =
      continue_kept (λ t. settled e t ≡ true) (apply_entry g d s) (apply_all g ds)
        (settled-kept e d s h) (λ t k. all_kept ds e t k)

  pub goes_on :
      (d : Entry) (ds : List Entry) (s t : State S)
      → apply_entry g d s ≡ (ok tt, t)
      → apply_all g (d ∷ ds) s ≡ apply_all g ds t
  unfolding apply_all
  goes_on d ds s t one = rw one

  pub stops :
      (d : Entry) (ds : List Entry) (s t : State S) (e : MigrationError)
      → apply_entry g d s ≡ (err e, t)
      → apply_all g (d ∷ ds) s ≡ (err e, t)
  unfolding apply_all
  stops d ds s t e one = rw one

  split_first :
      (d : Entry) (ds : List Entry) (s : State S) (x : Result MigrationError (Unit {0}) × State S)
      → apply_entry g d s ≡ x
      → (apply_all g (d ∷ ds) s).0 ≡ ok tt
      → ((t : State S)
          → (apply_all g ds t).0 ≡ ok tt
          → All (λ e. settled e (apply_all g ds t).1 ≡ true) ds)
      → All (λ e. settled e (apply_all g (d ∷ ds) s).1 ≡ true) (d ∷ ds)
  split_first d ds s (err e, t) one h rest =
      absurd (err_made e _ (ap (λ x. x.0) (stops d ds s t e one)) h)
  split_first d ds s (ok u, t) one h rest =
      let on = goes_on d ds s t one in
      subst (λ y. All (λ e. settled e y.1 ≡ true) (d ∷ ds)) (sym on)
        (all_kept ds d t (entry_succeeds d s t one), rest t (sym (ap (λ x. x.0) on) ∙ h))

  -- A start that succeeds leaves every entry settled.
  pub each_settled :
      (ds : List Entry) (s : State S)
      → (apply_all g ds s).0 ≡ ok tt
      → All (λ d. settled d (apply_all g ds s).1 ≡ true) ds
  each_settled [] s h = tt
  each_settled (d ∷ ds) s h = split_first d ds s (apply_entry g d s) refl h (each_settled ds)

  pub each_skipped :
      (ds : List Entry) (s : State S)
      → All (λ d. settled d s ≡ true) ds
      → apply_all g ds s ≡ (ok tt, s)
  unfolding apply_all
  each_skipped [] s h = refl
  each_skipped (d ∷ ds) s h = rw (settled-skips d s h.0) (each_skipped ds s h.1)
