-- ===== src/Sqlc/Statement/Returns.antt =====
-- A statement that succeeds has been delivered, and its query has committed.
use based_backend.Types.{Bytes}
use based_backend.Prelude.{◌≡◌, refl}
use based_backend.World.{World, returns, fails}
use based_backend.Sqlc.Database.{
  Database, Query, commits, aborts, Delivery, delivered, refused, lost, Postgres, Env, DbError,
  driver_error,
}
use based_backend.Sqlc.Statement.{statement, deliver, advance}

deliver-returns :
    {A : Type 0} (d : Delivery) (q : Query A) (w v : World) (a : A)
    → deliver d q w ≡ returns a v
    → (db : Database) × (q ≡ commits a db) × (v ≡ advance w db)
unfolding deliver
deliver-returns delivered (commits b db) w v a h = (db, cc, cc)
deliver-returns delivered (aborts e) w v a h = absurd cc
deliver-returns (refused why) q w v a h = absurd cc
deliver-returns (lost why) (commits b db) w v a h = absurd cc
deliver-returns (lost why) (aborts e) w v a h = absurd cc

pub statement-returns :
    {A : Type 0} (q : Postgres → Env → Database → Query A) (w v : World) (a : A)
    → statement q w ≡ returns a v
    → (db : Database) × (q w.postgres (w.env w.tick) w.db ≡ commits a db) × (v ≡ advance w db)
unfolding statement
statement-returns q w v a h = deliver-returns _ _ w v a h

-- The query commits, with a result and tables that meet `P`.
abbrev pub Commits : {A : Type 0} → (A → Database → Type 0) → Query A → Type 0
Commits P (commits a db) = P a db
Commits P (aborts e) = ⊥

deliver-Commits :
    {A : Type 0} (P : A → Database → Type 0) (d : Delivery) (q : Query A) (w : World)
    → d ≡ delivered
    → Commits P q
    → (a : A) × (db : Database) × (deliver d q w ≡ returns a (advance w db)) × P a db
unfolding deliver
deliver-Commits P delivered (commits a db) w e c = (a, db, refl, c)
deliver-Commits P (refused why) (commits a db) w e c = absurd cc
deliver-Commits P (lost why) (commits a db) w e c = absurd cc
deliver-Commits P d (aborts why) w e c = absurd c

-- A statement that gets through does what its query commits.
pub statement-Commits :
    {A : Type 0} {P : A → Database → Type 0} (q : Postgres → Env → Database → Query A) (w : World)
    → (w.env w.tick).delivery ≡ delivered
    → Commits P (q w.postgres (w.env w.tick) w.db)
    → (a : A) × (db : Database) × (statement q w ≡ returns a (advance w db)) × P a db
unfolding statement
statement-Commits {P} q w through c = deliver-Commits P _ _ w through c

deliver-delivered :
    {A : Type 0} (d : Delivery) (q : Query A) (w : World) (a : A) (db : Database)
    → d ≡ delivered
    → q ≡ commits a db
    → deliver d q w ≡ returns a (advance w db)
unfolding deliver
deliver-delivered d q w a db e f = rw (e, f) refl

pub statement-delivered :
    {A : Type 0} (q : Postgres → Env → Database → Query A) (w : World) (a : A) (db : Database)
    → (w.env w.tick).delivery ≡ delivered
    → q w.postgres (w.env w.tick) w.db ≡ commits a db
    → statement q w ≡ returns a (advance w db)
unfolding statement
statement-delivered q w a db e f = deliver-delivered _ _ w a db e f

deliver-refused :
    {A : Type 0} (d : Delivery) (q : Query A) (w : World) (why : Bytes)
    → d ≡ refused why
    → deliver d q w ≡ fails (driver_error why) (advance w w.db)
unfolding deliver
deliver-refused d q w why e = rw e refl

pub statement-refused :
    {A : Type 0} (q : Postgres → Env → Database → Query A) (w : World) (why : Bytes)
    → (w.env w.tick).delivery ≡ refused why
    → statement q w ≡ fails (driver_error why) (advance w w.db)
unfolding statement
statement-refused q w why e = deliver-refused _ _ w why e

-- A query that aborts never makes a success.
deliver-aborts :
    {A : Type 0} (d : Delivery) (why : DbError) (w : World)
    → (e : DbError) × (deliver {A = A} d (aborts why) w ≡ fails e (advance w w.db))
unfolding deliver
deliver-aborts delivered why w = (why, refl)
deliver-aborts (refused t) why w = (driver_error t, refl)
deliver-aborts (lost t) why w = (driver_error t, refl)

pub statement-aborts :
    {A : Type 0} (q : Postgres → Env → Database → Query A) (w : World) (why : DbError)
    → q w.postgres (w.env w.tick) w.db ≡ aborts why
    → (e : DbError) × (statement q w ≡ fails e (advance w w.db))
unfolding statement
statement-aborts q w why h = rw h (deliver-aborts _ why w)
