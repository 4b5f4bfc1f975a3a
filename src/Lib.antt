-- ===== src/Lib.antt =====
-- Specora Core compiles YAML contracts (entities, workflows, routes, pages, agents, mixins) into
-- applications, and repairs the contracts of a running application. This development models the
-- ordering of contracts for compilation (forge/parser), the passes over the compiled IR
-- (forge/ir/passes) and its validation (forge/ir/semantic.py), the comparison of two versions of
-- the entities for a migration (forge/targets/migrations), and the healer (healer/) with its HTTP
-- surface.
--
-- How the parts interact. `merge_dependencies` reads the names that a contract refers to;
-- `build_dependency_graph` makes the graph of all loaded contracts out of them, and
-- `topological_order` gives the compiler its order. The compiled entities get the fields of their
-- mixins, their workflows and their generated names, `validate_semantics` refuses a domain that
-- is not coherent, and `diff_entities` says what a migration has to change. The healer stores
-- tickets in a database; `process_next` claims the best one, classifies its error, asks a
-- proposer for a repaired contract, and either applies it or holds it for `approve_ticket` and
-- `reject_ticket`. Tickets come in through `ingest`, behind a secret and the rate limit, and are
-- decided on by handlers that `_authorize` guards with the credentials of healer/security.py and
-- the queue's consumed nonces.
--
-- Files.
--   Prelude/*: shared names, Boolean tests, lists, Python dicts as association lists, options.
--   Json: the values of YAML contracts and JSON columns, `dict.get`, truth and `==` of Python.
--   Forge/Dependencies: forge/parser/dependencies.py, function by function.
--   Forge/Graph: forge/parser/graph.py. A dict used as an ordered set is the list of its keys,
--     the heap of `topological_order` a list with its least element taken out. Graph/Build has
--     `build_dependency_graph`; the other children are proofs.
--   Healer/Models: healer/models.py and `LLMUsage` of healer/cost.py; Models/RoundTrip has the
--     `from_dict` methods.
--   Healer/Queue: healer/queue.py, a table as the list of its rows in insertion order, a method
--     as one transaction from database to database.
--   Healer/Classifier: healer/analyzer/classifier.py, a pattern as literal pieces with a gap.
--   Healer/Applier: healer/applier.py over the files and the saved diffs.
--   Healer/Pipeline: healer/pipeline.py over the database, the disk and the notification log
--     (healer/notifier.py).
--   Forge/Ir: the records of forge/ir/model.py.
--   Forge/Passes: forge/ir/passes/*.py, each pass as a function; Passes/Names has the inferred
--     names and the order of the passes.
--   Forge/Migrations: forge/targets/migrations/differ.py, with `default_clause` and
--     `column_is_not_null` of forge/targets/postgres/gen_ddl.py and `sql_literal` of
--     forge/targets/naming.py; Python's `repr` of an int and `json.dumps` are the record
--     `Printing`.
--   Forge/Migrations/Sql: the columns and ALTER statements that fields and changes are rendered
--     to.
--   Healer/Security: healer/security.py. The tokens and their codec are in Security itself,
--     Security/Planes has the data plane, CSRF tokens and the chain of schemes; the other
--     children are proofs.
--   Healer/RateLimit: healer/ratelimit.py over floats as an interface.
--   Healer/Server: healer/api/server.py, `_authorize` in Server itself and the handlers in
--     Server/Handlers; a call goes from state to state.
--   Forge/Semantic: forge/ir/semantic.py, check by check; its children say what coherent means
--     and prove the checks. Forge/Naming: forge/targets/naming.py.
--   Healer/Breaker: healer/cost.py over the usage log, the circuit breaker in Breaker itself and
--     the budget and the ceiling in Breaker/Budget.
--
-- Exceptions are `none`, in the pipeline `false`, or where their status matters `raised` of
-- Prelude/Results, and the state after one is what was committed before it. Times are texts that
-- the caller passes. Floats are their `repr`.
--
-- Fuel. The `while ready` loop of `topological_order` runs on one step more than there are
-- contracts; a step places one contract that was not placed before, so this is enough, which the
-- theorems on it include.
--
-- Parameters. The contract validator, the YAML library, the refusals of the file system and of
-- the diff store, the proposers, the threshold test and the code generators are fields of the
-- records `Outside` and `Setup`, the printing of numbers and JSON of the record `Printing`,
-- floats and times of the spend governor of the records `Gauge` and `Spending`; no theorem
-- assumes anything of them. Of the record `Codec` (base64, HMAC, JSON, text conversions) the
-- theorems on tokens assume what `IsBase64` and `IsJson` say, of the record `Floats` those on the
-- limiter what `IsOrdered` says, and of the record `Lexicon` (Python's character tables and
-- keywords) that on identifiers what `IsLexicon` says.
--
-- Not modelled: file discovery and YAML parsing, the generators' templates, network and terminal
-- output, the command lines, the LLM engine, the extractor and the factory, which are input and
-- output around the modelled code or text templates; `detect_cycles` and `summary` of the graph,
-- which only report; the text of the HTML pages, the metrics and the background loop of the HTTP
-- service; reading the price table in healer/cost.py.
pub mod Prelude
pub mod Json
pub mod Forge
pub mod Healer
