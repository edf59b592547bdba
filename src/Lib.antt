-- ===== src/Lib.antt =====
-- Sapo Engine, a workflow engine: blueprints are parsed to node graphs that an interpreter runs
-- with explicit control frames, and sessions that wait for input or time are stored and resumed.
--
-- The parts that this development models, and the files; a file that has a folder of its name has
-- its parts there.
--   Prelude.antt, shared names, Boolean tests, lists and signed integers over the native numbers,
--     integers as decimal text, and maps with text keys as association lists (`std::map`, `std::unordered_map`).
--   Json.antt, documents (`nlohmann::json`) as far as the program looks into them.
--   Workflow.antt, src/parser/AstNodes.hpp. A node has the fields by which control is routed;
--     what a task alone reads of a node is behind the record `Tasks`.
--   Interpreter.antt, src/runtime/Interpreter.cpp. `State` has the state of an execution, the
--     frames and the signals; `Frames` has pushFrame, bindIteration, eraseIterationLocals and
--     resolveJump; `Advance` has advanceAfterNode, closeFrame, advanceTryPhase and
--     startNextIteration; `Errors` has nextIterationFor, finishLoop and handleError; `Activate`
--     has activateNode, stepLoop, stepTry and stepCondition; `Drive` has drive. The other files
--     of the folder hold proofs.
--   BlueprintValidator.antt, outgoingTargets and reachableFrom of
--     src/parser/BlueprintValidator.cpp, over the fields by which a node names others. The walk has
--     one unit of fuel for each edge and one for the entry.
--   Context.antt, src/runtime/Context.hpp: the variables of a session, their layers, the journal of
--     writes and the merge of branches, over any type of values.
--   EventBus.antt, src/runtime/EventBus.cpp and EventBus.hpp: subscriptions, publishing and the
--     recent events. A handler changes a world that is a parameter, and may throw.
--   StateStore.antt and Timer.antt, src/runtime/StateStore.hpp, src/runtime/StateStore.cpp and
--     the timer of src/runtime/Scheduler.hpp: the session checkpoints and the in-memory store.
--     Each method holds the store's lock for its whole body, so that threads interleave whole
--     calls.
--   FileStore.antt, FileStateStore of src/runtime/StateStore.cpp, over the texts of the files. The
--     JSON library's `dump` and `parse` are the record `JsonFile`, and whether the file system does
--     a write or a removal is an argument. A file that is there can be opened.
--   StateStore/Documents.antt, toJson and fromJson of checkpoints and of timers. How the JSON
--     library converts a number to an integer type is the record `Numbers`.
--   Redis.antt, src/redis: `Values` has the replies and the client, `IRedisClient`; `Keyspace`,
--     `Scripts`, `Commands`, `Hashes`, `SortedSets`, `Ranges` and `Client` the in-memory double of
--     MockRedisClient.cpp, whose commands are lists of texts as they are on the wire; `Layout` and
--     `Store` the store of RedisStateStore.cpp over any client. A method that throws has no
--     result. The JSON library's texts are the record `JsonText`. The Lua scripts stand as the C++
--     that the double has for them. A score is a whole number. The other files of the folder hold
--     proofs: the store on the double against the in-memory store, and the claims.
--   Schedule.antt, `CronExpression` of src/runtime/Scheduler.cpp from its parsed form on:
--     matches, dayMatches and nextAfter, with breakDown and compose of src/util/TimeUtils.cpp
--     over the `gmtime_r` and `timegm` of the C library, which the record `Calendar` stands for;
--     `Civil` has what POSIX says of them, and `Due` says without the code when a schedule is due.
--     The search of nextAfter has the source's bound of 1501 days as its fuel.
--   Scheduler.antt, `Scheduler` of src/runtime/Scheduler.cpp: its timers, its jobs, tickUntil and
--     nextWakeMs. The reading of the texts of schedules and time zones is the record `Schedules`.
--   Sel.antt, the expression language: src/runtime/expressions/Sel.cpp and SelNodes.hpp,
--     Sel.hpp and Value.hpp beside it. `Syntax` has the nodes and tokens, `Reading` and `Parser`
--     the parser by the source's functions, `Values` the coercions of Value.hpp, `Operators` and
--     `Evaluator` the evaluation of each kind of node; `Library` is what these use of the C++
--     library and of nlohmann::json, with doubles as bit patterns. The other files of the folder
--     hold proofs. The parser's loops recurse on fuel, one more than the number of tokens for
--     parseProgram. The resolver of names and the table of standard functions are arguments.
--   Examples.antt, concrete inputs and small runs.
--
-- The interpreter calls the tasks, the expression evaluations of its own nodes and the parallel
-- section through the record `Tasks` of Interpreter.State, a parameter of the definitions; an
-- exception of a call is a value of `Outcome`. The innermost frame, `frames.back()`, is the head
-- of the list of frames. A message that the source puts together is kept as its parts.
--
-- `advance` recurses on fuel, as advanceAfterNode, closeFrame and nextIterationFor call each
-- other; the fuel is one more than the weight of the frames, where a frame weighs two, for itself
-- and a `finally` body to come, and one in its `finally` body. `drive` recurses on fuel, one unit
-- for a turn of its loop; a workflow can keep the source's loop turning for ever. `stuck` is the
-- answer of either without fuel.
--
-- Integers: counters and positions are natural numbers, versions and times are integers without
-- bound: the source's 64-bit values would have to pass 2^63 writes or milliseconds to differ.
--
-- Not modelled: logs, metrics and traces; the delay between two attempts; the parallel section,
-- the checkpoints of a run and its resumption, the paths into a context; the texts of
-- schedules and of events; handlers that call the bus they are called by; the lexer,
-- the templates and the standard functions of the expression language; the list of issues of the validator; the listing and the pruning of the
-- Redis store, SCAN, the socket client and the execution of Lua by a server; and the parts that
-- no file is about: the parser of workflows, HTTP, the command line, the distribution copy and
-- the third-party code.
pub mod Prelude
pub mod Json
pub mod Redis
pub mod EventBus
pub mod Timer
pub mod StateStore
pub mod FileStore
pub mod Workflow
pub mod BlueprintValidator
pub mod Context
pub mod Interpreter
pub mod Sel
pub mod Schedule
pub mod Scheduler
mod Examples
