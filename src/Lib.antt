-- ===== src/Lib.antt =====
-- A verification library for agentprof, a profiler of the sessions of AI coding agents.
--
-- agentprof reads the event log of a session, derives its episodes (turns, tool calls, hook
-- calls, skill invocations, mode segments) and ranks and aggregates them for its reports. The
-- derivation is the core: crates/agentprof-core/src/episode/derive.rs walks the events once with
-- a state machine. The analyzer (crates/agentprof-core/src/analyzer) reads only its result.
--
-- Which file models which part:
--   Base, Order, Map   the Rust standard library, as far as the program uses it: vectors,
--                      saturating words, signed durations, sorting, texts with their order,
--                      BTreeMap and BTreeSet as lists of entries in key order.
--   Event              crates/agentprof-core/src/adapter.rs: EventKind and the trait Event. An
--                      event is the record of what the trait's methods return.
--   Model              crates/agentprof-core/src/model/tool_source.rs: `ToolSource::infer`.
--   Episode            the types of crates/agentprof-core/src/episode.
--   Derive             crates/agentprof-core/src/episode/derive.rs. `DeriveState` has the fields
--                      of the struct. Each method of it is a function from a state to a state
--                      under its own name, `dispatch` is the `match` of the loop, `step` the
--                      body of the loop, `close_all` what `finalize` does to the state. Its
--                      child modules hold the proofs, named for what they prove.
--   Analyzer           crates/agentprof-core/src/analyzer: ranks, pending calls, summaries and
--                      the report, over the result of a derivation.
--   Aggregate          crates/agentprof-core/src/analyzer/aggregate: the wall duration of a
--                      session, and the report over several sessions by model. Its loop stands
--                      as two recursions over the same list, one for the map of entries and one
--                      for the total duration; the panic on lists of different lengths is none.
--   Otlp               crates/agentprof-storage/src/otlp: `TypedEvent` (typed.rs), `SessionBuffer` and
--                      `SessionRouter` (router.rs), and the task of sweeper.rs. The record `Env` has
--                      what a call gets from outside: the size of an event in memory, the clock, the
--                      iteration orders of the hash maps, and the sink, which may fail. The calls run
--                      one after another; `Reach` is any sequence of them. Interleavings inside a
--                      call are not modelled.
--   Tui                crates/agentprof-tui/src: what a key does. `dispatch` (app/state.rs) goes
--                      through the same blocks in the same order as the code, each a function of
--                      its own; `run` is the loop of app/mod.rs on any list of what the terminal
--                      sends. The drawing is output: it is a parameter with its effect on the
--                      selection of a table, a type of the library ratatui.
--   Privacy            crates/agentprof-core/src/analyzer/redact.rs: `UuidRedactor`.
--   Cli                crates/agentprof-cli/src/cmd/since.rs: `parse_since`, with the parsing of a
--                      u64 by the Rust standard library written out.
--   Waste              crates/agentprof-core/src/analyzer/waste.rs and model/waste.rs: `compute_waste`,
--                      one function for each of its steps, and `aggregate_waste`. The tokenizers of
--                      the library tiktoken are a parameter.
--
-- Conventions. Instants are numbers of nanoseconds from the least DateTime, durations are
-- integers. Strings are their code points, whose order is that of the UTF-8 bytes. The type `J`
-- of tool arguments stands for serde_json::Value, which no modelled code inspects. The stacks of
-- open tool calls and open hook calls, which the code keeps at the end of a Vec, stand with the
-- end first. All loops of the program are recursions on lists, without fuel. Only the printing
-- of a decimal number by the standard library has fuel, one more than the number, which is more
-- than its digits. Overflow of usize counters, of sums of tokens and of chrono's durations (292
-- million years) is not modelled; saturating words are.
--
-- Percentiles take a whole rate and round the exact quotient in place of a floating-point one.
--
-- Not modelled: the aggregations by tool, server and day, the walk of the redaction over a
-- report and the cache metrics of crates/agentprof-core/src/analyzer, and the exports. Nor are the
-- reading and decoding of logs, SQL storage, the decoding of OTLP messages and their servers,
-- the drawing of the terminal interface, the web interface, text formatting and logging. They
-- are input and output, or stand on libraries outside the repository.
pub mod Base
pub mod Order
pub mod Map
pub mod Model
pub mod Event
pub mod Episode
pub mod Derive
pub mod Analyzer
pub mod Aggregate
pub mod Waste
pub mod Privacy
pub mod Otlp
pub mod Tui
pub mod Cli
