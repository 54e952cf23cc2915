-- ===== src/Endpoints/Examples.antt =====
-- The load and fault endpoints on a few requests: witnesses and tests.
use hotpod.Prelude.{
  ℕ, ◌+◌, ◌≤◌, ◌%◌, ◌≡◌, refl, ◌⊎◌, true, false, Option, none, some, [], arith, if◌then◌else◌, ◌<◌,
}
use hotpod.Prelude.Int.{ℤ, pos, ◌<ℤ◌, max_int64}
use hotpod.Prelude.Text.{Text, codes, text_eq}
use hotpod.Prelude.Float.{thousandths, thousandths_arith}
use hotpod.Prelude.Dict.{lookup}
use hotpod.Config.Result.{ok, err, invalid_number}
use hotpod.Config.Size.{parse_size}
use hotpod.Config.DirName.{is_empty}
use hotpod.Load.Defs.{
  Tracker, OpType, cpu, memory, io, latency, work, other, new_tracker, count, counter,
}
use hotpod.Load.Limits.{IsKnown}
use hotpod.Files.Defs.{Disk}
use hotpod.Files.Quiet.{calm}
use hotpod.Handlers.Response.{answer, failed, Query}
use hotpod.Endpoints.Cpu.{deadline_exceeded, read_cpu, run_cpu, cpu_handler}
use hotpod.Endpoints.Memory.{read_memory, run_memory, memory_handler, fill_memory}
use hotpod.Endpoints.Latency.{read_latency, run_latency, latency_handler}
use hotpod.Endpoints.Io.{read_io, run_io, io_handler}
use hotpod.Endpoints.Work.{
  WorkLimits, WorkOrder, Surroundings, read_work, run_work, work_handler, new_order, read_profile,
  work_profiles,
}
use hotpod.Endpoints.Faults.{
  crash_handler, hang_handler, oom_handler, error_handler, read_hang, chaos_disabled,
}
use hotpod.Endpoints.Checked.{Accepted}
use hotpod.Endpoints.Tracked.{Tracks, Leaves, handlers-Tracks}
use hotpod.Endpoints.Accepts.{
  CpuAccepts, MemoryAccepts, LatencyAccepts, IoAccepts, requests-Accepted,
}
use hotpod.Endpoints.Fill.{Filled, random_bytes, fill_memory-Filled}
use hotpod.Endpoints.Chaos.{
  CrashAccepts, OomAccepts, ErrorAccepts, faults-Accepted, Starts, Hoards, faults-start,
}
use hotpod.Endpoints.Hanging.{Hangs}
use hotpod.Endpoints.Varied.{WorkAccepts, Runs, work-Runs}
use hotpod.Endpoints.NotNumber.{read_work-nan}
use hotpod.Endpoints.SizeText.{format_size}
use hotpod.Endpoints.SizeRead.{format_size-parse}

-- Every duration is a second.
abbrev one_second : Text → Option ℤ
one_second text = some (pos 1000000000)

abbrev not_number : Text → Option (Option ℕ)
not_number text = some none

abbrev query : Query
query key =
    if text_eq key (codes "size")
    then codes "3KB"
    else if text_eq key (codes "cores")
    then codes "2"
    else if text_eq key (codes "exit_code")
    then codes "7"
    else []

abbrev nan_query : Query
nan_query key = if text_eq key (codes "variance") then codes "NaN" else []

abbrev limits : WorkLimits
limits = record { max_cpu_duration = pos 100; max_memory_size = pos 2000 }

abbrev disk : Disk
disk = record {
  mkdir_fails = false;
  create_fails = false;
  open_fails = false;
  writing = λ i. calm;
  reading = λ i. calm;
}

abbrev around : Surroundings
around = record {
  words = λ i. i;
  halves = λ i. 255;
  looks = λ core. 4;
  ended = deadline_exceeded;
  too_large = false;
  memory_cancelled = false;
  sleep_cancelled = false;
}

abbrev none_running : OpType → ℕ
none_running op = 0

abbrev others : Tracker → Tracker
others t = t

tracker-Leaves :
    (op : OpType)
    → IsKnown op
    → (count (new_tracker (pos 2)) op ≡ pos 0)
      × (0 < max_int64)
      × (0 < max_int64)
      × Leaves op others 0 0
unfolding new_tracker count counter
tracker-Leaves cpu k = (refl, omega arith, omega arith, λ t e. e)
tracker-Leaves memory k = (refl, omega arith, omega arith, λ t e. e)
tracker-Leaves io k = (refl, omega arith, omega arith, λ t e. e)
tracker-Leaves latency k = (refl, omega arith, omega arith, λ t e. e)
tracker-Leaves work k = (refl, omega arith, omega arith, λ t e. e)
tracker-Leaves (other s) k = absurd k

handlers-Tracks_example :
    let t = new_tracker (pos 2) in
    Tracks cpu t 0 0
      (read_cpu one_second (pos 100) query)
      (run_cpu (λ core. 4) deadline_exceeded)
      (cpu_handler one_second (pos 100) (λ core. 4) deadline_exceeded query others t)
    × Tracks memory t 0 0
        (read_memory one_second (pos 2000) query)
        (run_memory (λ i. i) (λ i. 255) false false)
        (memory_handler one_second (pos 2000) (λ i. i) (λ i. 255) false false query others t)
    × Tracks latency t 0 0
        (read_latency one_second query)
        (run_latency 5 false)
        (latency_handler one_second 5 false query others t)
    × Tracks io t 0 0 (read_io (pos 0) query) (run_io disk) (io_handler (pos 0) disk query others t)
    × Tracks work t 0 0
        (read_work limits not_number (some 1) (some 2) (some 3) query)
        (run_work around)
        (work_handler limits not_number (some 1) (some 2) (some 3) around query others t)
handlers-Tracks_example =
    handlers-Tracks one_second not_number limits (pos 0) disk around 5 (some 1) (some 2) (some 3)
      query others (new_tracker (pos 2)) none_running none_running tracker-Leaves

requests-Accepted_example :
    Accepted
      (CpuAccepts one_second (pos 100) query)
      (CpuAccepts one_second (pos 100) query)
      (read_cpu one_second (pos 100) query)
    × Accepted
        (MemoryAccepts one_second (pos 2000) query)
        (MemoryAccepts one_second (pos 2000) query)
        (read_memory one_second (pos 2000) query)
    × Accepted
        (LatencyAccepts one_second query)
        (LatencyAccepts one_second query)
        (read_latency one_second query)
    × Accepted (IoAccepts (pos 0) query) (IoAccepts (pos 0) query) (read_io (pos 0) query)
requests-Accepted_example = requests-Accepted one_second (pos 100) (pos 2000) (pos 0) query

fill_memory-Filled_example :
    Filled 11 (λ j. 9) (fill_memory (λ i. i + 300) (λ i. 255) (codes "zero") 11 (λ j. 9))
    × Filled 11
        (λ j. j % 256)
        (fill_memory (λ i. i + 300) (λ i. 255) (codes "sequential") 11 (λ j. 9))
    × Filled 11
        (random_bytes (λ i. i + 300) (λ i. 255) 11)
        (fill_memory (λ i. i + 300) (λ i. 255) (codes "random") 11 (λ j. 9))
fill_memory-Filled_example = fill_memory-Filled (λ i. i + 300) (λ i. 255) 11 (λ j. 9)

faults-Accepted_example :
    ((crash_handler one_second false query ≡ (failed 403 chaos_disabled, []))
      × (hang_handler one_second false false none true query ≡ failed 403 chaos_disabled)
      × (oom_handler false query ≡ (failed 403 chaos_disabled, none))
      × (error_handler not_number (some 500) (some 100) false query ≡ failed 403 chaos_disabled))
    × Accepted
        (CrashAccepts one_second query)
        (CrashAccepts one_second query)
        (crash_handler one_second true query).0
    × Accepted (OomAccepts query) (OomAccepts query) (oom_handler true query).0
    × Accepted
        (ErrorAccepts not_number (some 500) (some 100) query)
        (ErrorAccepts not_number (some 500) (some 100) query)
        (error_handler not_number (some 500) (some 100) true query)
faults-Accepted_example =
    faults-Accepted one_second not_number (some 500) (some 100) false none true query

faults-start_example :
    Starts (crash_handler one_second true query)
    × Hoards (oom_handler true query)
    × Hangs false none
        (read_hang one_second true query)
        (hang_handler one_second false true none true query)
faults-start_example = faults-start one_second true false none true query

abbrev web_order : WorkOrder (Option ℕ)
web_order =
    new_order limits (some 1) (some 2) (some 3) (codes "web")
      (record {
        cpu_duration = pos 20000000;
        cpu_cores = pos 1;
        intensity = codes "medium";
        memory_size = pos 5242880;
        latency = pos 50000000;
      })
      none

work-Runs_example :
    Accepted
      (WorkAccepts limits not_number (some 1) (some 2) (some 3) nan_query)
      (WorkAccepts limits not_number (some 1) (some 2) (some 3) nan_query)
      (read_work limits not_number (some 1) (some 2) (some 3) nan_query)
    × Runs around web_order (run_work around web_order)
work-Runs_example =
    work-Runs limits not_number (some 1) (some 2) (some 3) nan_query around web_order

format_size-parse_example :
    ((1023 < 1024) × (parse_size (format_size (pos 1023)) ≡ ok (pos 1023)))
    ⊎ ((1024 ≤ 1023) × (parse_size (format_size (pos 1023)) ≡ err invalid_number))
format_size-parse_example = format_size-parse 1023 (omega arith)

-- The process ends for a variance that is not a number.
nan_run :
    (read_work limits not_number (some 1) (some 2) (some 3) nan_query ≡ answer web_order)
    × (web_order.memory_size <ℤ pos 0)
    × (run_work around web_order ≡ none)
unfolding read_profile lookup text_eq is_empty work_profiles
nan_run =
    read_work-nan limits not_number (some 1) (some 2) (some 3) nan_query around (codes "web") _ refl
      refl refl (omega arith)
