-- ===== src/Lib.antt =====
-- awf runs workflows of agent and code steps so that a crash loses no committed work. A run
-- writes an append-only log of events and puts their payloads into a content-addressed blob
-- store; a resumed run folds the log back into the state in memory, and the interpreter goes on
-- from there. This library models that core and proves what a resume relies on.
--
-- The parts and their files:
-- - Prelude: lists, byte strings, decimal numerals, int64, results and Go maps, for all parts. A
--   Go string that is a key, a path or data is a list of bytes; one that is only compared is a
--   String.
-- - State (state/): Event and Frame are event.go, the record and its frame on disk (encodeFrame,
--   decodeFrame); Log is log.go, the log over the bytes of its file (OpenLog, OpenLogExisting,
--   OpenLogExclusive, Append, Fold, FoldFile); Blobs is blobs.go (Put, Get, RefFor).
-- - Retry (retry/policy.go): Merge, BackoffFor, EffectiveBackoff, IsRetryableExit.
-- - Engine.Path (engine/path.go): the addresses of nodes, which key the log and the state.
-- - Engine.Events (engine/events.go) and Engine.RunState (engine/runstate.go, engine/outcome.go):
--   the payloads, and the state in memory with its recorders.
-- - Engine.Fold (engine/fold.go, with parts of engine/skills.go and engine/rerun.go): the replay,
--   one function for each arm of the switch.
-- - Engine.Walk (engine/interpreter.go, engine/skip.go, ir/path.go) and Engine.Gate
--   (engine/gate.go): the walk over a block of nodes and the whole handler of gates.
-- - Engine.Try (engine/try.go): the do, catch and finally blocks of a try.
-- - Engine.Condition, Engine.Branch and Engine.Loop (engine/interpreter.go): runIf and runLoop,
--   whose conditions the template language evaluates (EvalBoolString).
-- - Engine.Commit (engine/commit.go): Commit, over the store of State.Blobs; Engine.Fold.Restores
--   joins it to the replay.
-- - Engine.RetryLoop (engine/retry_loop.go): the dispatches of one step under its policy
--   (RunWithRetry, validateDispatchResult).
-- - Engine.Rerun (engine/rerun.go): what a run with --from forgets (ResolveRerunTarget,
--   ComputeRerunInvalidation).
-- - Engine.Prune (engine/prune.go): the frontier of a map, with the scores of its items and the two
--   policies (pruneController, pruneRun).
-- - Engine.Map (engine/map.go): the end of an item and its commit (the part of dispatchItem behind
--   its body, commitMapItem, commitMapFrontier), shouldRerunItem, and the verdict over the statuses
--   (tallyResults, ratioThreshold), from the frontier's event on (steps 3c to 6 of runMap).
-- - Engine.SignalStep (engine/signal_step.go): the handler of a signal step
--   (runSignalStepWithContext), from the await to its two durable events, and its resume.
-- - Signal (signal/): Paths is paths.go, the names of signals and of their files; Broker is broker.go
--   (WriteSignal, nextSeq, tryConsume, tryConsumeMatching), each call of the file system a step;
--   Broker.Alone and Broker.Sending run one call of the broker with none between, and
--   Broker.Interleaved runs any number of writers and readers in any order.
-- - Template (template/): Syntax, Kinds, Lexer and Parser are lexer.go, ast.go and parser.go
--   (Lex, ParseExpr, ParseRef); Value and Eval are eval.go and refs.go (EvalBool, References);
--   Slots is slots.go (scan, Slots); Substitute is Substitute of eval.go, and value.go; Static is
--   envelope.go and artifact_ref.go. A string of the language is its bytes, and positions count
--   bytes.
-- They meet as in the program: Log carries Events through Frame; Fold reads blobs by a function
-- from references to bytes, which Blobs.get is one of; RetryLoop sleeps as Retry says.
--
-- Parameters stand for what is not in the repository: encoding/json (Codec, Json), crc32 and
-- SHA-256, the float product of the jitter, Go's floats (Floats), and the faults of a disk.
-- Their laws are named where they are used (CodecLaws, HashLaws, JitterLaws, FloatLaws,
-- RatioLaws), and concrete instances of them stand in the modules named Examples. The dispatch
-- from a node to its handler and the evaluation of an until expression are parameters of Gate
-- as well, and so are the dispatcher and the clock of RetryLoop, the paths that ir.WalkNodes
-- visits, what other writers of the log do while a map commits an item, the broker's answer,
-- the where predicate and the schema of a signal step, the scope of the engine
-- (engine/scope.go) and the key of a committed code step (engine/nodekey.go).
--
-- Bounds and fuel: the scan of a log has as much fuel as the file has bytes, and one round more;
-- so have the lexer and the scanner of slots, over their source. The parser has eight units for
-- each token and eight more. The loops of RetryLoop and of a gate recurse on the attempts that
-- are left. A loop node may run for ever, so runLoop takes fuel, and with a maximum the
-- iterations left are enough. The numbers of records wrap at 64 bits, epochs at 32, and durations
-- at int64.
--
-- Not modelled: the mutexes (each method holds its mutex throughout, so it is one step),
-- context cancellation, the dispatch of a map's items, reduce clauses, texts of error
-- messages, agents, containers, the command line, the validation of workflows, and the
-- handlers of the other node kinds.
pub mod Prelude
pub mod State
pub mod Retry
pub mod Engine
pub mod Template
pub mod Signal
mod Examples
