-- ===== src/Lib.antt =====
-- OurNeZt Core: the server that helps a household plan its housing. It keeps users, families, people
-- and housing options in a database, answers gRPC requests about them, and computes CPF
-- contributions, household incomes, housing grants and affordability.
--
-- A request passes the authentication limiter, a handler of `server` reads and checks the message,
-- finds out who acts, calls a repository, and turns the result or the error into the response; the
-- dashboard puts the calculations together. The files and the code they model:
--
--   Common      Go's `int64` (Common/Int64: two's-complement patterns that wrap around), strings as
--               characters (Common/Text), `float64` as an interface (Common/Float64), lists, tests
--   Domain      internal/domain/models.go: the records and constants, field by field
--   Errors      internal/platform/apperror/errors.go: errors as values
--   AuthLimit   internal/authlimit/limiter.go: `allow` as `clean`, then `admit` and `charge` on a
--               table of buckets, each call one step because the code holds a mutex; the slots of
--               `Acquire` as a counter and a step relation over requests (AuthLimit/Slots)
--   Calculation internal/calculation: cpf.go (Cpf), income.go (Income), housing_grant.go (Grant),
--               housing.go (Housing), function by function
--   Checklist   internal/domain/housing_checklist.go and housing_notes.go
--   Action      calls that change a state and can fail, which the services and handlers are made of
--   Service     internal/service: dashboard.go (Service/Dashboard), auth.go (Service/Accounts)
--   Security    internal/platform/security: the stored form of a password and the tokens, which fill
--               the interface that Service/Accounts takes
--   Server      internal/server: errors.go (Server/Errors), mapping.go (Server/Mapping) between the
--               messages of proto/ournezt/v1 (Server/Messages) and the records, auth_context.go
--               (Server/Access), person.go (Server/Person), housing.go and housing_notes.go
--               (Server/Housing), auth.go (Server/Auth), auth_limit.go (Server/Auth/Interceptor) and
--               family.go (Server/Family), over the interfaces of internal/repository/interfaces.go and the
--               session store (Server/Repositories)
--   Postgres    internal/repository/postgres: a database is a record of tables, lists of rows with
--               the columns of db/migrations (Postgres/Tables); a statement is a function to a new
--               database or an error of the driver (Postgres/Sql), with the constraints of the
--               schema; common.go (Postgres/Access), users.go (Postgres/Users, on the rows of
--               Postgres/UserRows), families.go (Postgres/Families, on those of
--               Postgres/FamilyRows), housing.go and housing_notes.go (Postgres/Housing for options,
--               Postgres/HousingGroups for groups and single columns, on Postgres/HousingRows),
--               people.go (Postgres/People, and Postgres/PersonUpdates for changes, on
--               Postgres/PersonRows and Postgres/PersonLinks), with the statements for a
--               database where migrations 000002 and 000003 have not run
--   Tests       sample data and runs of the code on it
--
-- All functions are total by structural recursion on lists and strings; no fuel is used. Amounts are
-- `int64` with wrap-around, and a theorem that needs more says which amounts it takes to be small.
-- A call of a service or handler is one step on its state: the limiter's mutex makes that exact for
-- the limiter, a statement of PostgreSQL, or a transaction, is atomic, and interleavings of the
-- limiter's slots are modelled apart, in AuthLimit/Slots.
--
-- Parameters: SHA-256, `strings.ToLower`, the parsing and printing of dates, `float64`, what a
-- repository answers and stores where no database is named, of PostgreSQL the values of `::uuid`,
-- `gen_random_uuid()`, `lower` and the order of texts (the record Engine), Argon2, base64 and
-- randomness, and what the context and the clock say.
-- Not modelled: the PostgreSQL repository of the checklist, reading options with the
-- evaluations that the checklist attaches to them, the handlers for
-- finance, the dashboard and the checklist, configuration and start-up, lost connections to the
-- database, and generated code.
pub mod Common
pub mod Domain
pub mod Action
pub mod Errors
pub mod AuthLimit
pub mod Calculation
pub mod Postgres
pub mod Server
pub mod Checklist
pub mod Service
pub mod Security
pub mod Tests
