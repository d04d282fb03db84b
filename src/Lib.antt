-- ===== src/Lib.antt =====
-- A model of the server of this repository: a gRPC backend with users, events and chat, over
-- PostgreSQL. A call passes the interceptor, which finds the caller in the token, reaches the handler
-- of one of three services, which converts its arguments and calls a repository, which runs statements
-- on the database. The chat service also hands new messages to the subscribers in memory.
--
-- Which file models what (paths from the root of the repository):
-- - Types, Prelude: byte strings, nullable values, UUIDs, times and floats; tables as lists of rows,
--   with the conditions, the order and the cascades of SQL; the integers over the native numbers.
-- - World: the state of the server (the tables, the subscribers, the number of the next statement) and
--   actions on it, which end with a value or an error. `World/Returns` inverts a success.
-- - Sqlc/Models, Sqlc/Database, Sqlc/Keys: internal/gen/sqlc/models.go and the tables and constraints
--   of sql/migrations/0001_initial_table.up.sql. Sqlc/Labels: the labels of its enum types.
--   Sqlc/Statement: a round trip through DBTX of internal/gen/sqlc/db.go.
-- - Sqlc/Users, Sqlc/Chat, Sqlc/Events: internal/gen/sqlc/users.sql.go, chat.sql.go, events.sql.go.
--   The SQL text of a constant such as createUser is a function from the tables to a query that
--   commits or aborts (insert_user), and the method CreateUser is the statement with it (create_user).
-- - Sqlc/Integrity: the keys, foreign keys and checks of the migration as an invariant.
-- - Repositories: internal/repositories. The interfaces are records, which the services take as a
--   parameter; new_user_repository and its kin implement them.
-- - Services/User, Services/Event, Services/Chat: the handlers of internal/services, by the names of
--   the source in snake_case. Services/Convert and Services/Event/Convert: their conversions.
--   Services/Chat/Hub: chatService.subscribers with addSubscriber, removeSubscriber, broadcastMessage.
--   Services/Chat/Stream: StreamMessages, as a step relation; Services/Chat/Cleanup:
--   cleanupInactiveSubscribers. A slice of subscribers is a list of pointers; `overwritten` is what a
--   removal does to the array of a slice that was loaded before.
-- - Services/Auth: internal/services/auth_service.go. Auth/Keys is the map of keys and the JWKS, and
--   Auth/Base64 the decoder of its numbers. Auth/Publication, Auth/Verification and Auth/Rotation prove.
-- - Config: internal/config/config.go. Db: internal/db/db.go. Main: main of cmd/server/main.go.
--   Main/Startup is about what has happened when it serves, Main/Serving about the calls after that.
-- - Sqlc/Scan: the Scan and Value methods of the enum types.
-- - Interceptor: internal/interceptors/auth_interceptor.go. Server: cmd/server/main.go with the method
--   tables of internal/gen/proto. Proto: the messages and enums of internal/gen/proto.
-- - The other files hold proofs and are named for what they prove; Tests runs the program.
--
-- What is not code of the repository is a parameter. PostgreSQL's and PostGIS's functions are the
-- fields of `Postgres`; the clock, random UUIDs, and whether a statement reaches the server and its
-- reply comes back are chosen anew for every statement, by `env`; the replies to requests for the
-- keys of the realm are chosen by `replies`. jwt.Parse is the field `parse` of `JwtLibrary`, and
-- `IsVerifying` says what its documentation promises: the key of the given function has been used
-- to check the signature, and the claims are those that the text of the token holds. The pgx pool
-- and golang-migrate are the fields of `Drivers`. A statement is atomic and the statements of
-- concurrent calls are taken one after another; a history of calls runs each call to its end before
-- the next begins. The streams of the chat service are the exception: their rounds come in any
-- order with the actions of other goroutines.
--
-- There is no fuel: every loop of the modelled code runs over a list, or is a step relation. An int32 of
-- the messages is an integer, since the code computes with none; where the code converts or multiplies
-- (to_int32, to_int64, exponent_bits), the result wraps around.
-- Times are nanoseconds from the Unix epoch, and floats are bit patterns, which the code passes on.
--
-- Not modelled: the ticker of cleanupInactiveSubscribers, the texts of wrapped errors of libraries, log
-- messages, and the transport, which are I/O; concurrent access to the map of keys, which the source
-- does not guard; what protoc generates beyond messages, method names and dispatch.
-- internal/services/cron_service.go is empty.
pub mod Prelude
pub mod Types
pub mod Proto
pub mod World
pub mod Sqlc
pub mod Repositories
pub mod Services
pub mod Interceptor
pub mod Server
pub mod Tests
pub mod Config
pub mod Db
pub mod Main
