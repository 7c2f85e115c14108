-- ===== src/Migrations/Restarts.antt =====
-- controller/internal/database/database.go: the migrations over several starts of the controller.
use thin_pi.Prelude.{
  ℕ, zero, suc, ◌≤◌, ◌<◌, ◌≡◌, refl, sym, ap, ◌∙◌, subst, ◌⊎◌, inl, inr, true, false, not, ◌||◌,
  some, List, [], ◌∷◌, ◌++◌, arith, Bool-cases, length, count_where, All, Result, ok, err,
}
use thin_pi.Migrations.{
  Entry, MigrationError, State, Engine, is_script, prefix, place, sort_entries, applied,
  apply_version, commit, apply_entry, apply_all, migrate,
}
use thin_pi.Migrations.Settled.{
  err_made, settled, apply_version-settles, goes_on, stops, all_kept, settled-kept, settled-skips,
  each_settled, each_skipped,
}

module _ {S : Type 0} (g : Engine S) where
  -- How many entries there is still something to do for.
  abbrev pending : List Entry → State S → ℕ
  pending ds s = count_where (λ e. not (settled g e s)) ds

  fewer :
      (ds : List Entry) (s t : State S)
      → ((e : Entry) → settled g e s ≡ true → settled g e t ≡ true)
      → pending ds t ≤ pending ds s
  unfolding count_where
  fewer [] s t keep = ground arith
  fewer (d ∷ ds) s t keep = ground (arith, keep d, fewer ds s t keep)

  none_pending :
      (ds : List Entry) (s : State S) → All (λ d. settled g d s ≡ true) ds → pending ds s ≡ 0
  unfolding count_where
  none_pending [] s h = refl
  none_pending (d ∷ ds) s h = ground (arith, h.0, none_pending ds s h.1)

  -- Each entry in turn is settled already, or is a script with a number that runs on the tables it
  -- meets, and the rest then start from what it leaves.
  abbrev pub Applies : List Entry → State S → Type 0
  Applies [] s = Unit
  Applies (d ∷ ds) s =
      ((settled g d s ≡ true) × Applies ds s)
      ⊎ ((v : ℕ) × (after : S) × (settled g d s ≡ false)
          × (g.atoi (prefix d.name) ≡ some v)
          × (g.execute d.body s.tables ≡ some after)
          × Applies ds (record s { versions = s.versions ++ (v ∷ []); tables = after }))

  script_left :
      (d : Entry) (v : ℕ) (after : S) (s : State S)
      → settled g d s ≡ false
      → g.atoi (prefix d.name) ≡ some v
      → g.execute d.body s.tables ≡ some after
      → (apply_entry g d s).1 ≡ record s { versions = s.versions ++ (v ∷ []); tables = after }
  unfolding settled apply_entry apply_version commit
  script_left d v after s waits named runs =
      elim (Bool-cases (d.is_dir || not (is_script d.name))) [
        | inl skipped ↦ absurd (ground arith)
        | inr script ↦
            let fresh : applied v s ≡ false = rw (script, named) at waits in
            elim (Bool-cases (g.keys_hold after)) [
              | inl hold ↦ rw (script, named, fresh, runs, hold)
              | inr break ↦ rw (script, named, fresh, runs, break)
            ]
      ]

  script_settles :
      (d : Entry) (v : ℕ) (after : S) (s : State S)
      → settled g d s ≡ false
      → g.atoi (prefix d.name) ≡ some v
      → g.execute d.body s.tables ≡ some after
      → settled g d (apply_entry g d s).1 ≡ true
  unfolding settled apply_entry
  script_settles d v after s waits named runs =
      elim (Bool-cases (d.is_dir || not (is_script d.name))) [
        | inl skipped ↦ absurd (ground arith)
        | inr script ↦
            rw script (apply_version-settles g d (g.atoi (prefix d.name)) s (rw named) (rw runs))
      ]

  -- One entry is settled after its step, and the rest apply to what the step leaves.
  step-Applies :
      (d : Entry) (ds : List Entry) (s : State S)
      → Applies (d ∷ ds) s
      → (settled g d (apply_entry g d s).1 ≡ true) × Applies ds (apply_entry g d s).1
  step-Applies d ds s (inl (done, rest)) = rw (settled-skips g d s done) (done, rest)
  step-Applies d ds s (inr (v, after, waits, named, runs, rest)) = (
    script_settles d v after s waits named runs,
    subst (Applies ds) (sym (script_left d v after s waits named runs)) rest,
  )

  fewer_with :
      (d : Entry) (ds : List Entry) (s t : State S)
      → settled g d t ≡ true
      → pending ds t < pending ds s
      → pending (d ∷ ds) t < pending (d ∷ ds) s
  unfolding count_where
  fewer_with d ds s t h k = ground arith

  fewer_by :
      (d : Entry) (ds : List Entry) (s t : State S)
      → settled g d s ≡ false
      → settled g d t ≡ true
      → pending ds t ≤ pending ds s
      → pending (d ∷ ds) t < pending (d ∷ ds) s
  unfolding count_where
  fewer_by d ds s t waits h k = ground arith

  -- What a start leaves: the entries still apply, and it succeeded or there is less to do.
  Advanced : List Entry → State S → Result MigrationError (Unit {0}) × State S → Type 0
  Advanced ds s x = Applies ds x.1 × ((x.0 ≡ ok tt) ⊎ (pending ds x.1 < pending ds s))

  first_step :
      (d : Entry) (ds : List Entry) (s : State S) (x : Result MigrationError (Unit {0}) × State S)
      → apply_entry g d s ≡ x
      → (settled g d x.1 ≡ true) × Applies ds x.1
      → ((t : State S) → Applies ds t → Advanced ds t (apply_all g ds t))
      → Advanced (d ∷ ds) s (apply_all g (d ∷ ds) s)
  unfolding Advanced
  first_step d ds s (ok u, t) one (done, fit) rest =
      let left = (apply_all g ds t).1 in
      let here : settled g d left ≡ true = all_kept g ds d t done in
      let kept : pending ds t ≤ pending ds s =
        fewer ds s t (λ e k. ap (λ x. settled g e x.1) (sym one) ∙ settled-kept g e d s k) in
      let (fits, result) = rest t fit in
      subst (Advanced (d ∷ ds) s) (sym (goes_on g d ds s t one)) (
        inl (here, fits),
        elim result [
          | inl fine ↦ inl fine
          | inr less ↦ inr (fewer_with d ds s left here (omega (arith, less, kept)))
        ],
      )
  first_step d ds s (err e, t) one (done, fit) rest =
      let kept : pending ds t ≤ pending ds s =
        fewer ds s t (λ f k. ap (λ x. settled g f x.1) (sym one) ∙ settled-kept g f d s k) in
      subst (Advanced (d ∷ ds) s) (sym (stops g d ds s t e one)) (
        inl (done, fit),
        inr (elim (Bool-cases (settled g d s)) [
          | inl was ↦
              absurd (err_made e _ (ap (λ x. x.0) one) (ap (λ x. x.0) (settled-skips g d s was)))
          | inr waits ↦ fewer_by d ds s t waits done kept
        ]),
      )

  progress : (ds : List Entry) (s : State S) → Applies ds s → Advanced ds s (apply_all g ds s)
  progress [] s fit = unfold Advanced apply_all in (tt, inl refl)
  progress (d ∷ ds) s fit =
      first_step d ds s (apply_entry g d s) refl (step-Applies d ds s fit) (progress ds)

  again : List Entry → ℕ → State S → State S
  again ds zero s = s
  again ds (suc n) s = again ds n (apply_all g ds s).1

  enough :
      (ds : List Entry) (n : ℕ) (s : State S)
      → Applies ds s
      → pending ds s ≤ n
      → (apply_all g ds (again ds n s)).0 ≡ ok tt
  unfolding again Advanced
  enough ds zero s fit few = elim (progress ds s fit).1 [
    | inl fine ↦ fine
    | inr less ↦ absurd (omega (arith, less, few))
  ]
  enough ds (suc n) s fit few =
      let (fits, result) = progress ds s fit in
      elim result [
        | inl fine ↦
            let idle = none_pending ds (apply_all g ds s).1 (each_settled g ds s fine) in
            enough ds n (apply_all g ds s).1 fits (omega (arith, idle))
        | inr less ↦ enough ds n (apply_all g ds s).1 fits (omega (arith, less, few))
      ]

  pending_all : (ds : List Entry) (s : State S) → pending ds s ≤ length ds
  unfolding count_where
  pending_all [] s = ground arith
  pending_all (d ∷ ds) s = ground (arith, pending_all ds s)

  -- The state after so many starts.
  unfoldable pub starts : List Entry → ℕ → State S → State S
  unfolding migrate
  starts es zero s = s
  starts es (suc n) s = starts es n (migrate g es s).1

  starts-again :
      (es : List Entry) (n : ℕ) (s : State S) → starts es n s ≡ again (sort_entries es) n s
  unfolding starts migrate again
  starts-again es zero s = refl
  starts-again es (suc n) s = starts-again es n (apply_all g (sort_entries es) s).1

length-place : (e : Entry) (es : List Entry) → length (place e es) ≡ suc (length es)
unfolding place
length-place e [] = refl
length-place e (d ∷ ds) = ground (arith, length-place e ds)

length-sort_entries : (es : List Entry) → length (sort_entries es) ≡ length es
unfolding sort_entries
length-sort_entries [] = refl
length-sort_entries (e ∷ es) =
    omega (arith, length-place e (sort_entries es), length-sort_entries es)

-- If, in the order of their names and from the present state, each script whose number is not recorded yet
-- has a number and runs on the tables that those before it left, then the start after as many starts as
-- there are entries succeeds, whatever the checks of the foreign keys find on the way.
pub starts_end :
    {S : Type 0} (g : Engine S) (es : List Entry) (s : State S)
    → Applies g (sort_entries es) s
    → (migrate g es (starts g es (length es) s)).0 ≡ ok tt
unfolding migrate
starts_end g es s fit = rw (starts-again g es (length es) s) (
    enough g (sort_entries es) (length es) s fit
      (omega (arith, pending_all g (sort_entries es) s, length-sort_entries es)))

-- A start after a start that succeeded changes nothing and succeeds.
migrate_twice :
    {S : Type 0} (g : Engine S) (es : List Entry) (s : State S)
    → (migrate g es s).0 ≡ ok tt
    → migrate g es (migrate g es s).1 ≡ (ok tt, (migrate g es s).1)
unfolding migrate
migrate_twice g es s fine =
    each_skipped g (sort_entries es) (apply_all g (sort_entries es) s).1
      (each_settled g (sort_entries es) s fine)
