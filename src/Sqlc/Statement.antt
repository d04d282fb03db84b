-- ===== src/Sqlc/Statement.antt =====
-- One round trip to the server through DBTX (internal/gen/sqlc/db.go): q.db.Exec, q.db.Query, or
-- q.db.QueryRow with its Scan.
pub mod Keeps
pub mod Returns
use based_backend.Prelude.{suc}
use based_backend.World.{World, Outcome, returns, fails, M}
use based_backend.Sqlc.Database.{
  Database, Postgres, Env, Query, commits, aborts, DbError, driver_error, Delivery, delivered,
  refused, lost,
}

-- The world after a statement that left the tables `d`.
abbrev pub advance : World → Database → World
advance w d = record w { db = d; tick = suc w.tick }

unfoldable pub deliver : {A : Type 0} → Delivery → Query A → World → Outcome DbError A
deliver delivered (commits a d) w = returns a (advance w d)
deliver delivered (aborts e) w = fails e (advance w w.db)
deliver (refused why) q w = fails (driver_error why) (advance w w.db)
deliver (lost why) (commits a d) w = fails (driver_error why) (advance w d)
deliver (lost why) (aborts e) w = fails (driver_error why) (advance w w.db)

-- One round trip to the server: q.db.Exec, q.db.Query or q.db.QueryRow with its Scan.
unfoldable pub statement : {A : Type 0} → (Postgres → Env → Database → Query A) → M DbError A
unfolding deliver
statement q w = deliver (w.env w.tick).delivery (q w.postgres (w.env w.tick) w.db) w
