-- ===== src/Lib.antt =====
-- Verification of pi-ipython, a persistent IPython workspace for coding agents.
--
-- A host runs Python cells in a kernel that a bridge process owns. core/kernel-runtime.ts starts the
-- bridge, sends it requests, reads its messages line by line, and reports the loss of a kernel;
-- core/output.ts and core/cell.ts turn a cell's output into a bounded result; core/persistence.ts
-- saves and restores the namespace around each cell; core/python.ts provisions the environment.
-- extensions/ipython.ts and durable/index.ts offer the tool to two hosts, and extensions/cells.ts
-- records the cells and shows a console.
--
-- Where each part is:
--   Common       strings as lists of code points, UTF-8 as `Buffer` encodes and decodes it, tests on
--                numbers, and lemmas on lists.
--   Output       core/output.ts. Ansi: `stripAnsi`, on fuel, one round for each character of the text,
--                which is enough since a round leaves a shorter text. Truncation: `truncateTail` and
--                `endOfLine`. Report: `formatSize`, `partialText` and `finalOutput`.
--   Protocol     core/kernel-runtime.ts: `JsonValue`, `isBridgeMessage`, `invalidMessageReason`,
--                `describeError`. A JSON number is a safe integer or another number, by an index.
--   Kernel       core/kernel-runtime.ts: the class `KernelRuntime` as a state machine. State has its
--                fields, the effects and the shared private methods; Lines `handleLine`; Requests
--                `start`, `startKernel`, `request`, `execute`, `evaluate`, `getConnectionFile`;
--                Lifecycle the timers, the exit, `terminate` and `shutdown`; Events the steps. Each
--                function runs between two awaits; promises, timers and listeners are events, in any
--                order. Requests are told apart by a serial, where the source compares objects.
--   Cell         core/cell.ts: `cellResult`.
--   Persistence  core/persistence.ts. Settings: `persistenceEnabled`; Summary: `isRestoreSummary` and
--                `restoreNotice`; Checkpoints: the class `Checkpoints` over an interface to the kernel;
--                Runtime: `createRuntime` and the end of a runtime, with the number of saves that it
--                waits for.
--   Provision    core/python.ts: `syncEnvironment` over an interface to uv.
--   Extension    extensions/ipython.ts: `checkpointIds`, the handler of `tool_result`, the delivery of
--                notices and the text of a result. Live: the updates of a running cell, `progress`,
--                `output` and `emitOutput`, with their timeouts. Session: `getRuntime`; Session.Cells
--                the tool's `execute`; Session.Console `toggleCells`, the listener on SIGTERM and the
--                handler of `session_shutdown`; Session.Shutdown the actions of a session, SIGTERM included.
--                The runtime and the console are an interface, whose
--                calls may end in any way. The calls of the transcript are a list.
--   Cells        extensions/cells.ts. Transcript: the recorded cells; Shell: `shellQuote` and the
--                command of the console; Console: the pane, over an interface to Herdr, with
--                `togglePane` in Panes and `shutdown` in Shutdown.
--   Durable      durable/index.ts: `checkpointIds`, on fuel, one for each page, live output, and `close`.
--                Cells: the tool's `execute`, over an interface; Runtimes: the map of runtimes that
--                they are for their conversations.
--   Shared       Promises that callers share: `ensureRuntime` of core/kernel-runtime.ts and `toggle` of
--                extensions/cells.ts.
--
-- The code is modelled on exact numbers: its counters stay far below the limit of JavaScript's safe
-- integers. Escape sequences are stripped by code points, where the source counts code units; the
-- characters of a sequence are ASCII. The file system, uv, Herdr, the bridge and the host are
-- parameters or events, and may answer anything.
--
-- Not modelled: the Python side (core/bridge.py, core/kernel), which runs in other processes; spawning,
-- environment variables and the lengths of timers but the one of live updates; that other events can
-- come between the two signals of `reapProcessGroup`; `toggleCells` while a cell runs, since the
-- actions of a session follow each other; the parallel ends of the kernels in `close` of the durable
-- adapter, which follow each other; tool descriptions and registration; the lint rules under tools/oxlint, which are a
-- copy of another project (tools/oxlint/anti-slop/UPSTREAM.md) and no part of the program that runs.
pub mod Common
pub mod Shared
pub mod Output
pub mod Protocol
pub mod Kernel
pub mod Cell
pub mod Persistence
pub mod Provision
pub mod Extension
pub mod Cells
pub mod Durable
