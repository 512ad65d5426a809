-- ===== src/Lib.antt =====
-- A verification library of the TaskNexus client agent, the program that a machine runs to do the tasks of a
-- TaskNexus server.
--
-- The program. `AgentClient` (agent/src/client.rs) holds a websocket to the server: `run` connects,
-- again after failures, and hands each message of the server to a handler of `Agent`
-- (agent/src/main.rs). `TaskRunner` (agent/src/executor.rs) makes the workspace of a task that is
-- dispatched ready, with its repository and dependencies, and runs it as a shell command; the output is
-- captured, a structured result is cut out of it, and its lines go into a log file that
-- `TaskLogSyncState` (agent/src/main.rs) brings to the server.
-- What becomes of the tasks is kept in a state file (agent/src/persisted_state.rs), for a
-- restart and until the server acknowledges it. The agent replaces its own binary
-- (agent/src/self_update.rs), rotates its own log, and installs itself as a service
-- (agent/src/service.rs).
--
-- The files.
--   Prelude: Boolean tests, lists, maps and integers over the native numbers.
--   Text, Utf8: Rust's `str` and its UTF-8, as far as the program uses them.
--   Error: agent/src/error.rs. Config: agent/src/config.rs.
--   Client/Message, Connection, Queue, Sender, Session: agent/src/client.rs, that is the messages,
--     the methods of `AgentClient`, `FairLogQueue`, the send task of `message_loop` and `run` with
--     `handle_message`. Client/Fetch: `handle_fetch_agent_log`.
--   Log/Writer, Chunk, State, Sync: the log file, `read_utf8_chunk` and `TaskLogSyncState` of
--     agent/src/main.rs.
--   Store: `PersistedStateStore` of agent/src/persisted_state.rs; Store/Disk: its `load` and `save`.
--   Executor/Output, Stream, Capture: `OutputTail`, the reading of a stream and `StdoutCapture` of
--     agent/src/executor.rs; Executor/Command: its choice of a shell and `inject_token_into_url`;
--     Executor/Process: `execute`; Executor/Script: its command lines; Executor/Runner: the commands
--     for repositories and dependencies and the clean-up; Executor/Runner/Task: `run_task`.
--   Executor/Paths: Rust's `Path` on Unix, as far as the program uses it.
--   Agent: `handle_task_dispatch` before and after the task runs, `handle_task_cancel`,
--     `handle_task_state_ack`, `clear_persisted_task_state` and `send_state_sync_snapshot` of
--     agent/src/main.rs; Agent/Control: `handle_state_sync_result`, `handle_agent_update`,
--     `handle_agent_restart` and the whole `handle_task_dispatch`.
--     Agent/Interleaving: the handlers of dispatches and updates cut at their locks, taking turns.
--   SelfUpdate/Release, Files, Perform: agent/src/self_update.rs, that is the choice of an asset, the
--     replacement of the binary and `perform_self_update`.
--   AgentLog: `RotatingAgentLog` of agent/src/main.rs.
--   Service: agent/src/service.rs and agent/src/service_linux.rs.
--   Tests: the theorems at concrete inputs.
-- A definition has the name of the function that it models; child modules hold the proofs.
--
-- How it is modelled. State is passed on explicitly; a lock that one statement holds is no state.
-- Clocks, the faults of files and sockets and the ends of connections are inputs. A `String` that
-- the program walks is the list of its characters, and bytes are numbers. A `u64` and a `u32`
-- that grow wrap around (`% 2 ^ w`), and `saturating_sub` is the subtraction of the natural
-- numbers. A `HashMap` is an association list with one entry for a key. JSON values are a
-- parameter, and so are `serde_json` and `Url::parse`. Files are a map from their paths to their
-- contents where a module changes their contents. The environment of a process is what is set for it,
-- on top of what it inherits. A run of `run_task` is a list of its calls, and the
-- answer of the system to a call is a function of that list, so it may depend on all that was done.
--
-- Fuel. `process_chunk` runs its loop on as much fuel as its text has characters, and more makes no
-- difference. `trim_end_matches` runs on as much fuel as its text has characters and removes one or more in
-- each turn. All other loops go down a list or a number.
--
-- Not modelled: macOS and Windows, that is agent/src/service_macos.rs, agent/src/service_windows.rs
-- and the other branches of conditional compilation; `kill_process_tree`, `setup_logging`, the reading
-- of the configuration file, `get_system_info` and the entry points, which only call the system or
-- other crates; the heartbeats of a running task and the lines that updates and restarts write into
-- their own logs. Handlers of concurrent messages are modelled one after the other, but for those in
-- Agent/Interleaving.
pub mod Prelude
pub mod Text
pub mod Utf8
pub mod Error
pub mod Config
pub mod Client
pub mod Log
pub mod Store
pub mod Executor
pub mod Agent
pub mod SelfUpdate
pub mod AgentLog
pub mod Service
pub mod Tests
