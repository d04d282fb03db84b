-- ===== src/Sqlc/Statement/Keeps.antt =====
-- Invariants of the tables: what it means for a query or an action to keep one, with rules for a
-- statement, which also leaves the keys of the token check alone.
use based_backend.World.{World, M, pure, after, ◌>>=◌}
use based_backend.Sqlc.Database.{
  Database, Postgres, Env, Query, commits, aborts, Delivery, delivered, refused, lost,
}
use based_backend.Sqlc.Statement.{statement, deliver}
use based_backend.Services.Auth.Keys.{KeyStore}
use based_backend.World.Stable.{Stable, Stable-bind, Stable-pure}

-- A query that commits leaves tables that meet `P`.
abbrev pub Committed : {A : Type 0} → (Database → Type 0) → Query A → Type 0
Committed P (commits a db) = P db
Committed P (aborts e) = Unit {0}

-- The tables of a world meet `P`.
abbrev pub OnTables : (Database → Type 0) → World → Type 0
OnTables P w = P w.db

-- An action that starts with tables that meet `P` ends with such, whether it returns or fails.
abbrev pub Keeps : {E A : Type 0} → (Database → Type 0) → M E A → Type 0
Keeps P m = Stable (OnTables P) m

deliver-Keeps :
    {A : Type 0} (P : Database → Type 0) (d : Delivery) (q : Query A) (w : World)
    → P w.db
    → Committed P q
    → P (after (deliver d q w)).db
unfolding deliver
deliver-Keeps P delivered (commits a db) w v c = c
deliver-Keeps P delivered (aborts e) w v c = v
deliver-Keeps P (refused why) q w v c = v
deliver-Keeps P (lost why) (commits a db) w v c = c
deliver-Keeps P (lost why) (aborts e) w v c = v

module _ {P : Database → Type 0} where
  pub Keeps-statement :
      {A : Type 0} (q : Postgres → Env → Database → Query A)
      → ((pg : Postgres) (env : Env) (db : Database) → P db → Committed P (q pg env db))
      → Keeps P (statement q)
  unfolding statement
  Keeps-statement q h = record {
    at = λ w v. deliver-Keeps P _ _ w v (h w.postgres (w.env w.tick) w.db v);
  }

pub checked-Stable :
    {R : World → Type 0} {E A : Type 0} (m : M E A) → Stable R m → Stable R (m >>= pure)
checked-Stable m k = Stable-bind m pure k Stable-pure

deliver-auth :
    {A : Type 0} (R : KeyStore → Type 0) (d : Delivery) (q : Query A) (w : World)
    → R w.auth
    → R (after (deliver d q w)).auth
unfolding deliver
deliver-auth R delivered (commits a db) w r = r
deliver-auth R delivered (aborts e) w r = r
deliver-auth R (refused why) q w r = r
deliver-auth R (lost why) (commits a db) w r = r
deliver-auth R (lost why) (aborts e) w r = r

-- A statement leaves the keys of the token check alone.
pub statement-Stable :
    {A : Type 0} (R : KeyStore → Type 0) (q : Postgres → Env → Database → Query A)
    → Stable (λ w. R w.auth) (statement q)
unfolding statement
statement-Stable R q = record { at = λ w r. deliver-auth R _ _ w r }
