-- ===== src/Database/Connection.antt =====
-- `Connect` of internal/database/db.go: the pool is opened, and the database has to answer.
use docpulse.Base.Result.{Result, ok, err, ◌>>◌, wrap}
use docpulse.Base.{none, some}
use docpulse.Database.JobStore.{Fault}

abbrev pub outcome : Fault → Result (Unit {0})
outcome none = ok tt
outcome (some e) = err e

pub connect : Fault → Fault → Result (Unit {0})
connect pool ping =
    wrap "connecting to database" (outcome pool) >> wrap "pinging database" (outcome ping)

-- Opens the module, for tests.
unfoldable pub connection : Unit {0}
unfolding connect
connection = tt
