-- ===== src/Lib.antt =====
-- A verification library for hotpod, a test server for Kubernetes that can be loaded, slowed down and
-- made to fail over HTTP. The server in internal/server puts a chain of middlewares around the routes
-- of internal/handlers; the routes share a work queue (internal/queue), a tracker of operations
-- (internal/load), the lifecycle (internal/server/lifecycle.go), the fault injector (internal/fault) and
-- the configuration (internal/config). Each part is modelled as functions on records that have the
-- fields of the Go structs, and its theorems stand beside it.
--
-- Parts and files:
--   * Prelude: the library's names passed on, Boolean tests, lists, int64 with its wrap-around, text as
--     lists of codes, maps as association lists, and an interface for float64.
--   * Queue: internal/queue/queue.go. Defs has one function per method of `Queue`; Spec is the abstract
--     queue, one list in service order; Refine, Order, Totals and Oldest are the theorems.
--   * Load: internal/load/tracker.go. Defs has `Tracker` and `Acquire`; Race has the loop of `Acquire`
--     cut into the steps of callers that interleave.
--   * Lifecycle: internal/server/lifecycle.go. Defs has the operations and the loop of `Shutdown`;
--     History runs them as events in any order; Drain is about the loop.
--   * Fault: internal/fault/injector.go (Injector, Effective) and internal/fault/chaos.go (Chaos).
--   * Config: internal/config/config.go. Parse has the functions of strings and strconv that it uses;
--     Size, Cpu, DirName, Validate and Defs follow `ParseSize`, `ParseCPU`, `validateIODirName`,
--     `Validate` and `Load`.
--   * Server: internal/server/middleware.go and the chain in internal/server/server.go. Routes has
--     `normalizeEndpoint`, Middleware the wrapper of the response and the middlewares, Writer, Serve
--     and Lockout the theorems about one request and about sequences of requests. Run has what `Run` puts
--     around the chain and what it returns.
--   * Handlers: internal/handlers/queue.go (QueueEndpoints; Orders and Enqueue are about it),
--     internal/handlers/admin.go (Admin, Access, Report), internal/handlers/health.go (Health), and the
--     helpers that they share (Response).
--   * Workers: internal/queue/worker.go. Defs cuts `Start`, `Stop` and the loop of `worker` into events;
--     Accounts, Leaving, Stopping and Alone are the theorems.
--   * Files: the loops of internal/handlers/io.go. Defs has `writeFile`, `readFile`, `mixedIO` and
--     `performIO`; Bounds is about any disk, Quiet about one on which nothing fails.
--   * Endpoints: the other handlers of internal/handlers. Defs has what they share; Cpu, Memory, Latency, Io,
--     Work, Faults and Info are cpu.go, memory.go, latency.go, io.go, work.go, fault.go and info.go; SizeText
--     is `formatSize`. Checked has the steps of reading parameters, Ranged those of numbers; Accepts, Varied,
--     NotNumber and Chaos are about requests, Tracked about the tracker, Fill about `fillMemory`, SizePieces
--     and SizeRead about what is printed and read again.
--   * Sidecar: internal/sidecar/runner.go. Defs has the durations of `cpuLoop` and the steps of `Start` and
--     `Stop`; Burn, Stops and Turns are the theorems.
--   * Program: cmd/hotpod/main.go. Routes has the `Register` methods and their calls, Main has
--     `main`; Served and Ending are the theorems.
--   * Metrics: internal/metrics/prometheus.go. Defs has the collectors, as the options that they are made
--     with, and their registration; Registered is about that.
--   Each part's Examples has tests and its theorems at concrete values.
--
-- Conventions. The clock and random numbers are arguments. An instant is the number of nanoseconds since
-- Go's zero time, a duration an int64 of nanoseconds. A method that holds a mutex is one step; the loop
-- of `Acquire`, which holds none, is several, and so is the life of a worker. A request runs without a
-- break in Server. The loop of `Shutdown` takes fuel, one unit for a round: one more than the poll
-- intervals up to the deadline is enough. So do the loops of Files, where twice the size and one is enough,
-- since every round counts a byte at least and every other one may write; `fillMemory`, which has one unit
-- for a byte; and the printing of a number, which has one more than the number.
-- Parameters, since they are not code of this repository: strconv.ParseFloat and time.ParseDuration,
-- http.Error, http.TimeoutHandler and the mux of net/http, fmt.Sprintf in the middlewares, MustRegister and
-- BuildFQName of Prometheus, float64 with its comparisons and arithmetic, and what the operating system
-- and the random numbers do in a call. The routes behind the middlewares are an argument too.
--
-- Not modelled: JSON and log text, the values of metrics other than the ones named in the models,
-- the rounds of arithmetic that burn CPU, and net/http's own timeout, listening and shutdown.
pub mod Prelude
pub mod Queue
pub mod Load
pub mod Lifecycle
pub mod Fault
pub mod Config
pub mod Server
pub mod Handlers
pub mod Workers
pub mod Files
pub mod Endpoints
pub mod Sidecar
pub mod Program
pub mod Metrics
