-- ===== src/Lib.antt =====
-- Models of luca, a framework for agents: the durable data model and its derived status, the ledger
-- through which every write to a session goes, some doors of the runner that sit on it, the
-- strategy that decides whether a tool call may run, the projection of a path to the messages of a
-- request, and the streaming of completions.
--
-- A session (luca/agent/core/models.py) is a flat store of entries with several conversations over
-- it, each an ordered path of entry ids. Nothing stores a conversation's status: it is derived from
-- the path. The ledger (luca/agent/core/ledger.py) is the only writer; the runner calls its doors.
--
-- Models and its children follow models.py: Json, Content, Tools and Entries hold the classes as
-- records and data types, Path the functions of one path (`open_turn_index` and the rest, by the
-- source's names), Session the session and the handshake reads, Status `get_conversation_status`.
-- `isinstance` tests are functions into Option or Bool. Ledger holds the ledger's state and `append`,
-- `put_entry`, `refresh_entry`; Ledger/Transition `transition_conversation`, with its proofs in
-- Ledger/Archiving (Fates for the entries, Moving for the whole); Ledger/Records
-- `record_usage` and `prune`; Ledger/Reads the reads. A door gives its result or error with the
-- ledger after the call, so that writes in front of a raise show. The clock and the id generator are
-- functions from the number of the call, and the hash of a tool spec is a parameter: both come from
-- outside. Callbacks (`build`) are functions of what they are handed.
--
-- Permissions follows luca/agent/contrib/resource_permissions, the strategy that answers the
-- registry's question whether a call may run: Permissions/Rules the matching of one pair
-- (`_resolve_pair` and what it calls), Permissions/Decide `decide`, `permission_requests` and
-- `pending_requests`, Permissions/Answers `apply_answer` and `add_rule`. `fnmatchcase` and the
-- validation of a stored request are parameters; a call that raises gives `none`.
--
-- Runner follows luca/agent/core/runner.py: Runner/Posting `post_message`, its checks and the append
-- through the ledger, with the hooks as parameters that return and read no state, and without the
-- restart of drives; Runner/Rewinding `rewind_to`, told whether a run is live; Runner/Scheduling
-- `schedule_compaction`; Runner/DoomLoop `_is_doom_loop`, with Python's equality of parsed arguments
-- as a parameter. Runner/Outcomes holds the ends of tool executions, `_close_attempt`,
-- `_finalize_outcome`, `_recover_orphans` and `_settle_open_executions`, with `_wind_down` and
-- `_close_turn`: each returns or raises, and leaves the ledger and `_closed_outcomes` as they then
-- are; the two hooks may raise, the token count only returns, and an event is the execution that it
-- tells of. Runner/Slots is the worker pool: its fields, tests and single writes, and in Slots/Doors
-- `_request_slot`, `_grant`, `_release_slot`, `_pump_slots` and `_drop_waiter` as a relation, since a
-- grant calls back into the runner, which may use the pool again before the grant returns or raises.
-- A callback is any sequence of such calls and of changes of the rest of the runner. Tests holds a run of
-- each part on a small session from Samples.
--
-- Models/Storage follows the serializer and the validators of models.py that take the tool specs of
-- executions out of a saved session and put them back; the text of the file is not modelled.
--
-- Projection follows luca/agent/core/projection.py, which makes the messages of the next request from
-- a path: Projection/Entries the `project_…` method of each entry, Projection/Wording the texts that
-- they derive, Projection/Walk `project`, with the loop that skips a compaction bracket as a flag. It is
-- the default projector; an override is another one. `str`, `repr`, `json.dumps`, a value's truth and
-- the ISO form of a time are parameters.
--
-- Compaction follows agent/core/compaction.py (the plan and its checks; Plan, Members) and the
-- compaction of agent/core/runner.py: Compaction/Commit is `_commit`, from the checks to the
-- transition of the ledger; Compaction/Step is `_compaction_step` with `_close_compaction`,
-- `_close_turn`, `_append` and `_persist_entry`, as doors on the drive that return or raise. The wait
-- for the manager answers with the ledger as it is when the wait is over, so whatever else runs
-- meanwhile is covered; hooks may raise.
--
-- Client follows luca/client: Client/Streamer the core of client/transports/streamer.py, `emit`,
-- `finish_event`, `error_event` and the loops of `__next__` and `__anext__`, as one function of the
-- rounds that the loop meets (what the clock, `cancel()` and the read give). A wire class is a record
-- of its methods. Client/OpenAi is the wire class of client/transports/openai/streamer.py over chunks
-- of the shape of the wire format (Handlers, WireClass), with `_classify_finish` of transport.py;
-- Client/Blocks the blocks and events of client/types that it uses. Its handlers are operations that
-- change the streamer and append events or raise; Laws, CallLaws and ChunkLaws carry a relation over
-- their steps to the whole chunk handler, and Standing, Placing, Replay and Narrates use it.
-- `json.loads` and `str.strip` are parameters. A data line that is JSON but no object leaves the
-- iteration by an exception; objects that do not have the shape of the wire format are left out.
--
-- Fuel: the loop over trailing brackets has the length of the path, which is enough since each round
-- shortens it; the status of a parent reads its children's, so it has fuel that a rank on the
-- conversations bounds, and no fuel is enough where the links form a cycle (there the source does
-- not return either).
--
-- Left out: validation and serialisation by pydantic, object identity of stored specs (equality
-- stands for it), a pruned entry that a callback leaves without an id, and the parts of the
-- repository that these files do not touch: the drive loop, the other transports and HTTP, the tools,
-- the plugins and the terminal interface. A JSON number is kept as its text. Times and counts are natural
-- numbers. The `properties` keyword of an output schema is an object, as JSON Schema has it.
pub mod Base
pub mod Models
pub mod Ledger
pub mod Samples
pub mod Tests
pub mod Permissions
pub mod Runner
pub mod Client
pub mod Projection
pub mod Compaction
