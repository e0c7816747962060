-- ===== src/Lib.antt =====
-- skopos polls HTTP APIs as a declarative document says: a chain of requests per page, extracts from
-- the responses, pagination between pages, and progress that the next drain resumes from. This
-- library models the core of the interpreter: the document (schema/) with its validator, the client
-- (client/) and the fleet (cmd/skopos/), and relates them: what the validator accepts to what the
-- client then does, and what the client does to what a drain leaves behind.
--
-- Parts, and the files that model them:
--   Base, Any        helpers, and a decoded value: Go's any as nil, string, int64, bool, float64, time,
--                    duration, list and map
--   Schema/Path      schema/path.go: ParsePath, validatePathRoot and the codecs
--   Schema/Value     schema/value.go and schema/predicate.go: values and predicates as data types
--   Schema/Doc       schema/schema.go and schema/decode.go: the blocks of a document
--   Schema/Secret    IsSecret in schema/value.go
--   Schema/Interpolation
--                    desugarInterpolation in schema/value.go
--   Schema/Validation
--                    schema/validate.go: Diag and Refs are the diagnostics and the checks of paths, Values,
--                    Auth, Lifetimes and Requests those of the blocks, Document is Validate itself
--   Client/Platform  the operations of Go's standard library that the client calls, as a record
--   Client/Numerals, Client/Coerce, Client/Compare, Client/Reduce, Client/Eval
--                    client/value.go and client/predicate.go: evalValue, evalPredicate and helpers
--   Client/Scope, Client/Refs, Client/Lifetime
--                    client/state.go: the scope, resolveNamespaceRef, newScope, snapshot and the wipe
--   Client/BodyPath  client/bodypath.go
--   Client/Exec      methods of the scope that write to it and may fail, as a monad of state and error
--   Client/Extract, Client/Progress, Client/Pagination, Client/Cache, Client/FanOut
--                    the files of the same names in client/
--   Client/Dispatch  on_status and error.mode in client/runner.go and client/fanout.go
--   Client/Request, Client/Iteration, Client/Runner
--                    client/runner.go: runRequest, runIteration and Drain, with the synchronous emitter
--   Client/Wire      the network, the clock and the codecs that an exchange uses, as a record
--   Client/Decode    client/http.go: decodeChain and its stages
--   Client/TokenForm, Client/Token
--                    client/cache.go: buildOAuth2TokenRequest, fetchOAuth2Token and oauth2Token
--   Client/Auth      client/auth.go and client/sigv4.go: applyAuth and applySigV4
--   Client/Http      client/http.go: executeRequest
--   Client/FileStore client/filestore.go: Load and Save
--   Client/Redact    client/redact.go: redactValue
--   Client/Trace     client/trace.go: buildExchange, with safeURL
--   Client/Emitter   client/emitter.go: the asynchronous emitter as a step relation
--   Cmd/Fleet        cmd/skopos/cmd_run_fleet.go: resolveFleetEntries and driveFleetRun
-- Laws, Ends, Counts, Reach, Drop, Frame, Fields, Targets, Agree, Alike, Reads, Twin, Body, Build,
-- Wired, Warned, Pages, Effects and Delivery
-- hold theorems about the module above them, Valid and Declared what the validator makes true of it;
-- Tests and Client/Samples hold runs on small inputs.
--
-- A drain loads a snapshot, seeds a scope from it, and loops over pages: the requests run in order
-- and bind their bodies, the producer's events are located and handed to the sink, progress is
-- written, and the pagination plan advances. Every operation takes the scope and gives it back, also
-- beside an error, since the teardown of a drain saves the scope in whatever state an error left it.
--
-- How Go is read: an int and an int64 are one signed integer whose arithmetic wraps at 64 bits; an
-- instant and a duration are nanoseconds; a float64 is its bit pattern, worked on by the platform; a
-- map is an association list, whose order stands for the order in which Go ranges over it; an error
-- is its label and the labels that wrap it, without formatted operands. A struct of which the codecs
-- set exactly one field is a data type. A nil slice inside an any is the empty list. The clock is
-- read once per exchange.
--
-- The loops run on fuel. `rounds` bounds the passes of Drain and is enough above the page cap;
-- `fuel` bounds the terminate_when loop of a request and is enough above the number of the ctx.Err
-- call from which a context reports its end. The asynchronous emitter is related to the synchronous
-- one on one list of events; Drain itself is modelled with the latter. The fuel of
-- desugar_interpolation bounds how deep a default may hold a default; one unit is enough for a text
-- without a segment. A negative MaxPages, no cap, is defined and not covered by the theorems on
-- termination.
--
-- A save is the list of the disks that it goes through, one per call of the operating system, each
-- of which may fail. A file that was not flushed before the machine stops may hold anything
-- afterwards.
--
-- Not modelled: a tracer attached to the executor, and the writer of trace lines; logging, and the
-- operands of error texts, redactURLError with them; the AWS signer and credential providers, the
-- standard library's codecs, readers and parsers, which are fields of Platform and Wire; that the
-- AWS credential chain is built once per scope; the YAML and JSON codecs of values and predicates in
-- schema/, but for scalars; the bundled sinks; the command line but for the fleet, and the tools.
-- The executor of an environment gives an unexpected status only beside a response, as
-- executeRequest does. The nil checks of Runner.Doc and Runner.Sink are left out.
pub mod Base
pub mod Any
pub mod Schema
pub mod Client
pub mod Cmd
