-- ===== src/Cmd/Migrations.antt =====
-- `runMigrations` of cmd/api/main.go over the files that migrations/migrations.go embeds. What a
-- statement does to the schema is left out: the files that were applied are the state.
pub mod Order
mod Tests
use Prim.Native.String
use docpulse.Base.{
  ℕ, ◌-◌, Bool, true, false, Option, none, some, List, [], ◌∷◌, String, ltb, ◌==◌, if◌then◌else◌,
  length, drop,
}
use docpulse.Base.Result.{Result, ok, err, wrap}
use docpulse.Text.Utf8.{Bytes, str}
use docpulse.Database.JobStore.{Fault}
use docpulse.Storage.{same_bytes}

-- An embedded file: its name, and what `ReadFile` makes of it.
pub record Entry : Type 0 where
  pub name : String
  pub read : Fault

-- `<` of strings
pub less : Bytes → Bytes → Bool
less s [] = false
less [] (b ∷ t) = true
less (a ∷ s) (b ∷ t) = let rest = less s t in if a == b then rest else ltb a b

abbrev pub comes_before : Entry → Entry → Bool
comes_before a b = less (str a.name) (str b.name)

-- `sort.Slice` by names, no two of which are equal.
pub insert_entry : Entry → List Entry → List Entry
insert_entry e [] = e ∷ []
insert_entry e (f ∷ fs) =
    let rest = insert_entry e fs in if comes_before f e then f ∷ rest else e ∷ f ∷ fs

pub sort_entries : List Entry → List Entry
sort_entries [] = []
sort_entries (e ∷ es) = insert_entry e (sort_entries es)

-- `strings.HasSuffix(name, ".sql")`
pub has_suffix : Bytes → Bytes → Bool
has_suffix s suffix =
    if ltb (length s) (length suffix)
    then false
    else same_bytes (drop (length s - length suffix) s) suffix

abbrev pub is_sql : Entry → Bool
is_sql e = has_suffix (str e.name) (str ".sql")

-- The rest of the loop behind a file that was read.
applied : Entry → Fault → Result (Unit {0}) × List String → Result (Unit {0}) × List String
applied e (some why) rest = (wrap (String.◌++◌ "applying " e.name) (err why), [])
applied e none (result, names) = (result, e.name ∷ names)

apply_entry :
    Entry → Fault → Fault → Result (Unit {0}) × List String → Result (Unit {0}) × List String
apply_entry e (some why) exec rest = (wrap (String.◌++◌ "reading " e.name) (err why), [])
apply_entry e none exec rest = applied e exec rest

-- `exec` gives the error of the database for the file of a name. The names of the files that were
-- applied come with the result.
apply_entries : (String → Fault) → List Entry → Result (Unit {0}) × List String
apply_entries exec [] = (ok tt, [])
apply_entries exec (e ∷ es) =
    let rest = apply_entries exec es in
    if is_sql e then apply_entry e e.read (exec e.name) rest else rest

pub run_migrations : (String → Fault) → Result (List Entry) → Result (Unit {0}) × List String
run_migrations exec (err why) = (wrap "reading migrations" (err why), [])
run_migrations exec (ok entries) = apply_entries exec (sort_entries entries)

-- Opens the module, for tests.
unfoldable pub migrations : Unit {0}
unfolding less insert_entry sort_entries has_suffix applied apply_entry apply_entries run_migrations
migrations = tt
