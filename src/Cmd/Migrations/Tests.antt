-- ===== src/Cmd/Migrations/Tests.antt =====
-- Three files, one of which is no SQL.
use text.Mathlib.Text.{◌==◌ as str_eq}
use mathlib.Core.List.{Perm}
use docpulse.Base.{◌≡◌, refl, none, some, List, [], ◌∷◌, String, if◌then◌else◌}
use docpulse.Base.Result.{ok}
use docpulse.Text.Utf8.{utf8}
use docpulse.Database.JobStore.{Fault}
use docpulse.Storage.{local_store}
use docpulse.Cmd.Migrations.Order.{sql_entries, IsAscending, IsMigrated, run_migrations-IsMigrated}
use docpulse.Cmd.Migrations.{Entry, run_migrations, migrations}

abbrev found : List Entry
found =
    record { name = "002_more.sql"; read = none }
    ∷ record { name = "README"; read = none }
    ∷ record { name = "001_initial.sql"; read = none }
    ∷ []

all_applied :
    run_migrations (λ name. none) (ok found) ≡ (ok tt, "001_initial.sql" ∷ "002_more.sql" ∷ [])
unfolding migrations utf8 local_store
all_applied = refl

-- The second file is refused.
abbrev exec : String → Fault
exec name = if str_eq name "002_more.sql" then some "syntax error" else none

run_migrations-IsMigrated_example :
    (todo : List Entry) × Perm todo (sql_entries found)
    × IsAscending todo
    × IsMigrated exec todo (run_migrations exec (ok found))
run_migrations-IsMigrated_example = run_migrations-IsMigrated exec found
