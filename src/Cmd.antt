-- ===== src/Cmd.antt =====
-- The programs of the repository: cmd/api, cmd/worker and scripts/seed.go.
pub mod Migrations
pub mod Seed
pub mod Api
pub mod Worker
