-- ===== src/Migrations.antt =====
-- controller/internal/database/database.go: `migrate`. What a script does to the tables is a parameter, and
-- so are strconv.Atoi and pragma_foreign_key_check; a transaction that has run commits.
pub mod Settled
pub mod Restarts
use thin_pi.Prelude.{
  ℕ, zero, suc, ◌+◌, ◌-◌, ◌*◌, ◌/◌, ◌%◌, ◌^◌, ◌≤◌, ◌<◌, max, String, ◌≡◌, refl, sym, ap, ◌∙◌, subst,
  ◌≢◌, ◌↔◌, ◌⊎◌, inl, inr, Bool, true, false, not, ◌&&◌, ◌||◌, Option, none, some, List, [], ◌∷◌,
  ◌++◌, map, arith, str_eq, str_eq_iff, ltb, leb, ◌==◌, if◌then◌else◌, ltb→lt, lt→ltb, leb→le,
  ==_iff, ==_refl, Bool-cases, Option-cases, &&_left, &&_right, is_some, length, length-append,
  find-All, map_option, find-update_where, any-true, find-append, any_weaken, count_where-append,
  count_where_none, find_sound, find-any, any-false, All-update_where, All-append, All-map, is_nil,
  find, take, any, select, count_where, update_where, All, Bytes, bytes, text_eq, text_lt,
  lower_byte, to_lower, is_space, trim_left, trim_space, contains_byte, contains_any, text_eq_iff,
  Result, ok, err, Exec, pure, raise, continue, ◌>>=◌, ◌>>◌, gets, modify, require, or_fail, lift,
  roll_back, transact, Result-cases,
}

-- An entry of the embedded directory.
pub record Entry : Type 0 where
  pub name : Bytes
  pub is_dir : Bool
  pub body : Bytes

pub data MigrationError : Type 0 where
  bad_name : Bytes → MigrationError
  not_applied : Bytes → MigrationError
  broken_keys : Bytes → MigrationError

-- The database: the rows of schema_migrations, and its other tables.
pub record State (S : Type 0) : Type 0 where
  pub versions : List ℕ
  pub tables : S

pub record Engine (S : Type 0) : Type 0 where
  pub atoi : Bytes → Option ℕ
  pub execute : Bytes → S → Option S
  pub keys_hold : S → Bool

abbrev pub sql_suffix : Bytes → Bool
sql_suffix s = text_eq s (bytes ".sql")

-- strings.HasSuffix(name, ".sql")
unfoldable pub is_script : Bytes → Bool
unfolding text_eq
is_script [] = false
is_script (c ∷ s) = sql_suffix (c ∷ s) || is_script s

-- strings.SplitN(name, "_", 2)[0]
unfoldable pub prefix : Bytes → Bytes
prefix [] = []
prefix (c ∷ s) = let rest = prefix s in if c == b'_' then [] else c ∷ rest

unfoldable pub place : Entry → List Entry → List Entry
unfolding text_lt
place e [] = e ∷ []
place e (d ∷ ds) = let rest = place e ds in if text_lt d.name e.name then d ∷ rest else e ∷ d ∷ ds

-- sort.Slice by name
unfoldable pub sort_entries : List Entry → List Entry
unfolding place
sort_entries [] = []
sort_entries (e ∷ es) = place e (sort_entries es)

module _ {S : Type 0} where
  -- SELECT 1 FROM schema_migrations WHERE version=?
  unfoldable pub applied : ℕ → State S → Bool
  unfolding any
  applied version s = any (λ v. v == version) s.versions

  -- The transaction with its row in schema_migrations, and then the check of the foreign keys.
  unfoldable pub commit :
      Engine S → Entry → ℕ → Option S → State S → Result MigrationError (Unit {0}) × State S
  commit g e version none s = (err (not_applied e.name), s)
  commit g e version (some after) s =
      let next = record s { versions = s.versions ++ (version ∷ []); tables = after } in
      if g.keys_hold after then (ok tt, next) else (err (broken_keys e.name), next)

  unfoldable pub apply_version :
      Engine S → Entry → Option ℕ → State S → Result MigrationError (Unit {0}) × State S
  unfolding commit applied
  apply_version g e none s = (err (bad_name e.name), s)
  apply_version g e (some version) s =
      if applied version s then (ok tt, s) else commit g e version (g.execute e.body s.tables) s

  -- The body of the loop.
  unfoldable pub apply_entry :
      Engine S → Entry → State S → Result MigrationError (Unit {0}) × State S
  unfolding is_script prefix apply_version
  apply_entry g e s =
      if e.is_dir || not (is_script e.name)
      then (ok tt, s)
      else apply_version g e (g.atoi (prefix e.name)) s

  unfoldable pub apply_all :
      Engine S → List Entry → State S → Result MigrationError (Unit {0}) × State S
  unfolding apply_entry
  apply_all g [] s = (ok tt, s)
  apply_all g (e ∷ es) s = continue (apply_entry g e s) (λ u. apply_all g es)

  -- migrate
  unfoldable pub migrate :
      Engine S → List Entry → State S → Result MigrationError (Unit {0}) × State S
  unfolding sort_entries apply_all
  migrate g es s = apply_all g (sort_entries es) s
