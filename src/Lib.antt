-- ===== src/Lib.antt =====
-- The core of the AVP reference runtime (src/avp_ref): the records that an agent's evaluation leaves,
-- and the components that decide whether they can be trusted.
--
-- An Episode (src/avp_ref/runtime) is run through a graph of states. Each step appends one canonical
-- record and projects it onto the timeline of events (src/avp_ref/events.py), which is forwarded to a
-- telemetry session. At the terminal states the judgement of the Oracle is frozen from the events and
-- the accepted results. Bytes are kept in a content-addressed store (src/avp_ref/artifacts). An
-- evaluator decides on attestations of stored Artifacts (src/avp_ref/trust). The agent under test
-- stands behind a Subject Adapter (src/avp_ref/subject). The Environment Fabric
-- (src/avp_ref/fabric) composes resources and runs one operation over all of them. The reference
-- Environment Adapter (src/avp_ref/environment, world.py) gives an Episode a world with tools,
-- permissions, snapshots and injected faults; a guard (src/avp_ref/security) decides what a Subject
-- may call. The MCP gateway (src/avp_ref/mcp) stands between a Subject and a tool server: it calls only
-- tools that the policy allows and whose catalog has not changed since it was opened. The relational
-- resource (src/avp_ref/relational.py) keeps tables under a Manifest, with mutations that settle, a
-- QUIESCING boundary, snapshots, views and differences.
--
-- Files, by the code they model:
--   Base, Base/*         shared names; results of code that raises; dict, str, sets and JSON values
--   Models               models.py
--   Runtime/State        runtime/state.py; State/Graph is the diagram as a relation
--   Runtime/Lifecycle    runtime/lifecycle.py
--   Runtime/Acceptance   oracle_runner/models.py, OracleEvaluationRecord
--   Runtime/Record       the fields of runtime/episode.py and EventRecorder of events.py
--   Runtime/Evaluation   Episode._freeze_oracle_evaluation
--   Runtime/Episode      Episode.transition and Episode.bind_replay_source
--   Runtime/Actions      any sequence of uses of an Episode, for the properties of whole runs
--   Artifacts/*          artifacts/models.py, errors.py, _io.py, memory.py
--   Fabric/Contract      fabric/models.py
--   Fabric/Resource      fabric/runtime.py, InMemoryFabricResource
--   Fabric/Composition   fabric/runtime.py, EnvironmentFabric, up to provisioning and the reads
--   Fabric/Execution     EnvironmentFabric.execute_composite and release
--   Trust/Models         trust/models.py
--   Trust/Verifier       trust/verifier.py
--   Trust/Publisher      trust/publisher.py
--   Subject/Values       subject/models.py and errors.py
--   Subject/InProcess    subject/in_process.py
--   Environment/World    world.py; World/Difference is its semantic_diff
--   Environment/Values   environment/models.py and errors.py
--   Environment/Session  environment/in_memory.py, what happens inside one session
--   Environment/Adapter  environment/in_memory.py, the sessions behind their handles
--   Security/Policy      security/capability_policy.py and the guarded call of subject_adapter.py
--   Security/Adapter     security/subject_adapter.py, the adapter that guards another one
--   Mcp/Values           mcp/models.py and mcp/errors.py
--   Mcp/Schema           mcp/gateway.py, the checks on a JSON Schema
--   Mcp/Headers          mcp/gateway.py, the arguments that are mirrored in headers; Mcp/Encoding is
--                        encode_mcp_header_value of mcp/transport.py
--   Mcp/Tools, Catalog   mcp/gateway.py, _parse_tool and _list_tools
--   Mcp/Server, Calls    mcp/gateway.py, what is sent to the server and what it may answer
--   Mcp/Gateway          mcp/gateway.py, MCPVerificationGateway; Gateway/Logs and Gateway/Sessions are
--                        any sequence of uses of it, with the requests written down
--   Relational/Values    relational.py, values, rows and images of a state
--   Relational/Lexical   relational.py, the canonical texts of the value types
--   Relational/Manifest  relational.py, RelationalManifest and its parts
--   Relational/States    relational.py, the validation of a state and its image
--   Relational/Resource  relational.py, InMemoryRelationalResource; Resource/Uses is any sequence of
--                        uses of it; Diff is its diff
--   Tests/*              runs at concrete inputs
--
-- A method that changes its object returns the object beside its result, on the raising paths too, so
-- that what was written before a raise is in the model. An exception is a value of an error type, and
-- its message is left out. A constructor's `__post_init__` is a function that returns a result. Loops
-- are recursion on the list they go over, and on the number of pages left where the code counts pages;
-- no fuel is used but in decimal printing, where the number's successor is enough since each digit
-- divides it by ten.
--
-- Parameters: SHA-256 (`hexdigest`), the telemetry session (`record_event`, which may raise and change
-- its own state), the store that the trust evaluator reads, the attestation bindings,
-- the signer, the callable or the wrapped adapter of a Subject,
-- the server behind the MCP transport (`transport`, with its own state), the validator of JSON Schema
-- (`is_schema`, and `conforms`, which may raise), Base64 (`base64_utf8`), `str.lower` on header names (`lower_name`), the whole part of a float (`integer_of`), the digest
-- of a JSON value (`digest`; in the gateway it may raise, since UTF-8 cannot encode a lone surrogate), canonical JSON (`canonical`), what Python reads as a date, a time or Base64 (the record
-- `Lexicon`), the digest of a world's state (`state_digest`) and the identifiers drawn from uuid4. Bytes are
-- lists of numbers, a stream is the list of its chunks. Type tests that cannot fail on typed values are
-- left out. A frozen set is a list of which only membership is asked. The locks of the in-memory store
-- make a method one step, so there is no interleaving inside of it.
--
-- Not modelled: the engine that orchestrates an Episode, the HTTP transport of MCP, the scenario compiler, the
-- Oracle runner's processes, the HTTP adapter of a Subject, the reading of a relational Manifest, the telemetry bridge, the filesystem store, the
-- conformance kit, and the command line; most of them are I/O over the components that are here.
pub mod Base
pub mod Artifacts
pub mod Models
pub mod Runtime
pub mod Fabric
pub mod Trust
pub mod Security
pub mod Environment
pub mod Mcp
pub mod Relational
pub mod Subject
pub mod Tests
