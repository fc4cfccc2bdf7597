-- ===== src/Lib.antt =====
-- Verification library for an authorization service that answers each check with one of two
-- engines, Cedar (embedded, over rows of Postgres) or SpiceDB (a server), and for the seeding that
-- fills both stores with one dataset.
--
-- The parts and how they interact:
-- - internal/core/domain and internal/core/port: Domain.antt, the requests, values, entities and
--   the two ports. A Go value of type `any` is the sum `Value`.
-- - internal/core/service/router.go: Service.antt. `check` is `Router.Check`; `wrap` stands for
--   `fmt.Errorf` with `%w`, so that `is_bad_request` is `errors.Is(err, ErrBadRequest)`.
-- - internal/adapter/inbound/rest/handler.go: Rest.antt. `authorize` is `Handler.Authorize`, which
--   calls the router; `decode_entries` and its helpers are `decodeContext`.
-- - internal/adapter/outbound/cedar/engine.go: Cedar.antt, with the store that `Prepare` fills as an
--   association list. policies/*.cedar: Policies.antt.
-- - internal/adapter/outbound/postgres/loader.go: Postgres.antt, the entities that the Cedar decider
--   asks for. Each SQL statement is a function of `Queries`; Database.antt says what the statements
--   for RBAC and ACL select from the tables.
-- - internal/adapter/outbound/spicedb/decider.go: Spicedb.antt. schema/spicedb/schema.zed:
--   Schema.antt, the permissions over a set of relationships.
-- - internal/seed/types.go, writer_postgres.go, writer_spicedb.go: Seed/Types.antt, Seed/Rows.antt
--   and Seed/PostgresWriter.antt, Seed/Relationships.antt and Seed/SpicedbWriter.antt. A `Fact` is
--   one call of a record method of the sink; a writer's `log` holds the requests that it sent.
-- - internal/catalog/catalog.go: Catalog.antt. internal/seed/generator.go: Seed/Generator.antt, with
--   a module for each part of `BuildBasis` (Forest, Tables, Registry, Basis) and for each stream
--   (Basis, Grants, Folders, Attributes, Orders, Sharing), and `Run` in Running. What they do is a
--   value of `Program` (Seed/Program.antt), which draws numbers and calls the sink; `exec` carries
--   one out with a source and a sink, and `stream` lists its calls. Built.antt says what holds of a
--   generator that `BuildBasis` has filled; the parent -1 of a root is `none`.
-- - internal/seed/sampler.go: Seed/Sampler.antt, with a module for each model. A handler is a
--   `Program` too, since it draws from a source of its own; it calls no sink.
-- - internal/bench/bench.go `Verify` and `EvalOnlyFn`, and the gate of cmd/authz-bench/main.go:
--   Bench.antt. They take tuples that have been read back, whose numbers are float64
--   (Seed/Sampler/Loaded.antt).
-- - The phases that a resumed run of cmd/authz-seed/main.go still has to seed, with `DonePhases` of
--   internal/seed/writer_postgres.go: Seed/Checkpoints.antt.
-- - Equivalence.antt: both deciders on one dataset. A check of the Cedar side runs over the tables
--   that the rows of the records fill, a check of the SpiceDB side over their relationships.
-- - Base.antt: shared types, notation and lemmas. Tests.antt: concrete runs.
--
-- Conventions. A Go map is an association list with one entry for a key; where the code iterates
-- over a map, the model takes the order of the list. An error is a value of `Error`, and a function
-- with an error result yields `Fallible`; the state after an error is left out, since every caller
-- stops there. A loop is structural recursion on a list or a count. The exceptions run on fuel and
-- fail with `exhausted` when it ends: the loops of the generator and of the sampler that draw until they have found
-- something, for which no number of rounds is enough for every source (the loop for the grants is
-- shown to end with its calls as soon as the source has given enough different numbers), and
-- `org_ancestors`, which is given one round more than the index of the organization, shown enough.
--
-- The engines are described by hypotheses: `FollowsPolicies` (a request is allowed when a permit of
-- the policy files holds and no forbid does) and `FollowsSchema` (asked for an RBAC or ACL permission
-- with ids that it accepts, the server has it when the schema derives it; of ids that it does not
-- accept nothing is said); both are truncated, since a decision does not say which rule gave it.
--
-- Parameters: encoding/json and the clock (`Decoder`, the duration), float64 (`Float64`, exact up to
-- 2^53 by `IsExact`), cedar-go (`Engine`), the SpiceDB client with structpb and its server
-- (`Client`), pgx (`Queries`, and the acceptance of a statement or of a write), math/rand/v2
-- (`Random`, with numbers in range by `InRange`), and the zero-padding of fmt (`padded`).
--
-- Not modelled: the files of the tuples in internal/seed/sampler.go; the measuring of internal/bench
-- and the rest of the commands;
-- internal/config, the connection pool, progress output and the routes of net/http, which are I/O
-- and wiring; the DDL text.
pub mod Base
pub mod Domain
pub mod Service
pub mod Rest
pub mod Spicedb
pub mod Cedar
pub mod Catalog
pub mod Seed
pub mod Bench
pub mod Postgres
pub mod Database
pub mod Policies
pub mod Schema
pub mod Equivalence
pub mod Tests
