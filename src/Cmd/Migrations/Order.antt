-- ===== src/Cmd/Migrations/Order.antt =====
-- In which order `runMigrations` of cmd/api/main.go applies the files, and where it stops.
use mathlib.Core.List.{map, Perm}
use mathlib.Core.List.Perm
use docpulse.Base.{
  ◌≡◌, ◌≢◌, ◌⊎◌, inl, inr, refl, sym, ap, ◌∙◌, Bool, true, false, none, some, List, [], ◌∷◌, ◌++◌,
  String, arith, All-map, if◌then◌else◌, All, Bool-cases, Option-cases, if_both,
}
use docpulse.Base.Result.{Result, ok, IsError}
use docpulse.Text.Utf8.{Bytes, str}
use docpulse.Database.JobStore.{Fault}
use docpulse.Cmd.Migrations.{
  Entry, less, comes_before, insert_entry, sort_entries, is_sql, applied, apply_entry,
  apply_entries, run_migrations,
}

less_split : (a b c : Bytes) → less a c ≡ true → (less a b ≡ true) ⊎ (less b c ≡ true)
unfolding less
less_split [] [] (z ∷ c) h = inr refl
less_split [] (y ∷ b) c h = inl refl
less_split (x ∷ a) [] (z ∷ c) h = inr refl
less_split (x ∷ a) (y ∷ b) (z ∷ c) h = ground (arith, less_split a b c)
less_split a b [] h = absurd cc

less_asym : (a b : Bytes) → less a b ≡ true → less b a ≡ false
unfolding less
less_asym [] [] h = absurd cc
less_asym [] (y ∷ b) h = refl
less_asym (x ∷ a) [] h = absurd cc
less_asym (x ∷ a) (y ∷ b) h = ground (arith, less_asym a b)

abbrev pub IsNotAfter : Entry → Entry → Type 0
IsNotAfter a b = comes_before b a ≡ false

-- No file comes before one that stands in front of it.
abbrev pub IsAscending : List Entry → Type 0
IsAscending [] = Unit
IsAscending (e ∷ es) = All (IsNotAfter e) es × IsAscending es

IsNotAfter-trans : (a b c : Entry) → IsNotAfter a b → IsNotAfter b c → IsNotAfter a c
IsNotAfter-trans a b c h k = elim (Bool-cases (comes_before c a)) [
  | inr n ↦ n
  | inl y ↦ elim (less_split (str c.name) (str b.name) (str a.name) y) [
    | inl l ↦ absurd cc
    | inr l ↦ absurd cc
  ]
]

All-insert_entry :
    (P : Entry → Type 0) (e : Entry) (es : List Entry) → P e → All P es → All P (insert_entry e es)
unfolding insert_entry
All-insert_entry P e [] p h = (p, tt)
All-insert_entry P e (f ∷ fs) p h =
    if_both (All P) (comes_before f e) (h.0, All-insert_entry P e fs p h.1) (p, h)

insert_entry-IsAscending :
    (e : Entry) (es : List Entry) → IsAscending es → IsAscending (insert_entry e es)
unfolding insert_entry
insert_entry-IsAscending e [] h = (tt, tt)
insert_entry-IsAscending e (f ∷ fs) h = elim (Bool-cases (comes_before f e)) [
  | inl y ↦ rw y (
    All-insert_entry (IsNotAfter f) e fs (less_asym (str f.name) (str e.name) y) h.0,
    insert_entry-IsAscending e fs h.1,
  )
  | inr n ↦
      let later : All (IsNotAfter e) (f ∷ fs) =
        (n, All-map fs (λ g k. IsNotAfter-trans e f g n k) h.0) in
      rw n (later, h)
]

sort_entries-IsAscending : (es : List Entry) → IsAscending (sort_entries es)
unfolding sort_entries
sort_entries-IsAscending [] = tt
sort_entries-IsAscending (e ∷ es) = insert_entry-IsAscending e _ (sort_entries-IsAscending es)

-- The SQL files.
abbrev pub sql_entries : List Entry → List Entry
sql_entries [] = []
sql_entries (e ∷ es) = if is_sql e then e ∷ sql_entries es else sql_entries es

sql_entries-All : (P : Entry → Type 0) (es : List Entry) → All P es → All P (sql_entries es)
sql_entries-All P [] h = tt
sql_entries-All P (e ∷ es) h =
    if_both (All P) (is_sql e) (h.0, sql_entries-All P es h.1) (sql_entries-All P es h.1)

sql_entries-IsAscending : (es : List Entry) → IsAscending es → IsAscending (sql_entries es)
sql_entries-IsAscending [] h = tt
sql_entries-IsAscending (e ∷ es) h =
    if_both IsAscending (is_sql e)
      (sql_entries-All (IsNotAfter e) es h.0, sql_entries-IsAscending es h.1)
      (sql_entries-IsAscending es h.1)

-- Two files change places, where each may be one that is left out.
Perm-moved :
    (a b : Bool) (e f : Entry) (xs ys : List Entry)
    → Perm xs (if b then e ∷ ys else ys)
    → Perm
        (if a then f ∷ xs else xs)
        (if b then e ∷ (if a then f ∷ ys else ys) else (if a then f ∷ ys else ys))
Perm-moved true true e f xs ys p = Perm.trans (Perm.cons f p) (Perm.swap e f ys)
Perm-moved true false e f xs ys p = Perm.cons f p
Perm-moved false true e f xs ys p = p
Perm-moved false false e f xs ys p = p

Perm_if :
    (b : Bool) (e : Entry) (xs ys : List Entry)
    → Perm xs ys
    → Perm (if b then e ∷ xs else xs) (if b then e ∷ ys else ys)
Perm_if true e xs ys p = Perm.cons e p
Perm_if false e xs ys p = p

sql_entries-insert_entry :
    (e : Entry) (es : List Entry) → Perm (sql_entries (insert_entry e es)) (sql_entries (e ∷ es))
unfolding insert_entry
sql_entries-insert_entry e [] = Perm.rfl
sql_entries-insert_entry e (f ∷ fs) = elim (Bool-cases (comes_before f e)) [
  | inl y ↦ rw y (
      Perm-moved (is_sql f) (is_sql e) e f (sql_entries (insert_entry e fs)) (sql_entries fs)
        (sql_entries-insert_entry e fs))
  | inr n ↦ rw n Perm.rfl
]

sql_entries-sort_entries : (es : List Entry) → Perm (sql_entries (sort_entries es)) (sql_entries es)
unfolding sort_entries
sql_entries-sort_entries [] = Perm.rfl
sql_entries-sort_entries (e ∷ es) = Perm.trans (sql_entries-insert_entry e (sort_entries es)) (
    Perm_if (is_sql e) e (sql_entries (sort_entries es)) (sql_entries es)
      (sql_entries-sort_entries es))

module _ (exec : String → Fault) where
  abbrev pub IsFine : Entry → Type 0
  IsFine e = (e.read ≡ none) × (exec e.name ≡ none)

  -- All is applied and there is no error, or the first file that is left fails.
  abbrev pub Stops : List Entry → Result (Unit {0}) → Type 0
  Stops [] result = result ≡ ok tt
  Stops (e ∷ es) result = IsError result × ((e.read ≢ none) ⊎ (exec e.name ≢ none))

  -- Of the files `todo`, those up to the first that fails have been applied.
  pub record IsMigrated (todo : List Entry) (outcome : Result (Unit {0}) × List String)
      : Type 0 where
    pub done : List Entry
    pub rest : List Entry
    pub split : todo ≡ done ++ rest
    pub names : outcome.1 ≡ map (λ (e : Entry). e.name) done
    pub fine : All IsFine done
    pub stops : Stops rest outcome.0

  failed :
      (e : Entry) (es : List Entry) (result : Result (Unit {0}))
      → IsError result
      → (e.read ≢ none) ⊎ (exec e.name ≢ none)
      → IsMigrated (e ∷ es) (result, [])
  failed e es result wrong why = record {
    done = [];
    rest = e ∷ es;
    split = refl;
    names = refl;
    fine = tt;
    stops = (wrong, why);
  }

  apply_entry-IsMigrated :
      (e : Entry) (es : List Entry) (rest : Result (Unit {0}) × List String)
      → IsMigrated es rest
      → IsMigrated (e ∷ es) (apply_entry e e.read (exec e.name) rest)
  unfolding apply_entry applied
  apply_entry-IsMigrated e es (result, names) m = elim (Option-cases e.read) [
    | inr (why, r) ↦
        simp r (failed e es _ tt (inl (λ n. let k : some why ≡ none = sym r ∙ n in cc)))
    | inl r ↦ elim (Option-cases (exec e.name)) [
      | inr (why, x) ↦
          simp (r, x) (failed e es _ tt (inr (λ n. let k : some why ≡ none = sym x ∙ n in cc)))
      | inl x ↦
          simp (r, x)
            (record {
              done = e ∷ m.done;
              rest = m.rest;
              split = ap (λ k. e ∷ k) m.split;
              names = ap (λ k. e.name ∷ k) m.names;
              fine = ((r, x), m.fine);
              stops = m.stops;
            })
    ]
  ]

  apply_entries-IsMigrated : (es : List Entry) → IsMigrated (sql_entries es) (apply_entries exec es)
  unfolding apply_entries
  apply_entries-IsMigrated [] = record {
    done = [];
    rest = [];
    split = refl;
    names = refl;
    fine = tt;
    stops = refl;
  }
  apply_entries-IsMigrated (e ∷ es) = elim (Bool-cases (is_sql e)) [
    | inl y ↦ rw y (
        apply_entry-IsMigrated e (sql_entries es) (apply_entries exec es)
          (apply_entries-IsMigrated es))
    | inr n ↦ rw n (apply_entries-IsMigrated es)
  ]

-- The SQL files among those embedded are taken in the ascending order of their names, each once, and
-- exactly those in front of the first that cannot be read or applied have been applied; there is no
-- error where none fails.
pub run_migrations-IsMigrated :
    (exec : String → Fault) (entries : List Entry)
    → (todo : List Entry) × Perm todo (sql_entries entries)
      × IsAscending todo
      × IsMigrated exec todo (run_migrations exec (ok entries))
unfolding run_migrations
run_migrations-IsMigrated exec entries = (
  sql_entries (sort_entries entries),
  sql_entries-sort_entries entries,
  sql_entries-IsAscending _ (sort_entries-IsAscending entries),
  apply_entries-IsMigrated exec (sort_entries entries),
)
