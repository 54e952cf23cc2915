-- ===== src/Metrics/Defs.antt =====
-- internal/metrics/prometheus.go: the collectors, and their registration, which `promauto` does when the
-- package is initialised. What `MustRegister` of prometheus and `BuildFQName` do are arguments.
use hotpod.Prelude.{Option, none, some, List, [], ◌∷◌, ◌++◌}
use hotpod.Prelude.Text.{Text, codes}

-- The buckets of each histogram are `DefBuckets`.
pub data Kind : Type 0 where
  new_counter new_gauge new_histogram : Kind

pub record Opts : Type 0 where
  pub kind : Kind
  pub namespace : Text
  pub name : Text
  pub help : Text
  -- Those of a vector; none otherwise.
  pub label_names : List Text

abbrev pub namespace_of_all : Text
namespace_of_all = codes "hotpod"

abbrev pub request_metrics : List Opts
request_metrics =
    record {
      kind = new_counter;
      namespace = namespace_of_all;
      name = codes "requests_total";
      help = codes "Total number of HTTP requests by endpoint and status code.";
      label_names = codes "endpoint" ∷ codes "status" ∷ [];
    }
    ∷ record {
      kind = new_histogram;
      namespace = namespace_of_all;
      name = codes "request_duration_seconds";
      help = codes "HTTP request duration in seconds by endpoint.";
      label_names = codes "endpoint" ∷ [];
    }
    ∷ record {
      kind = new_gauge;
      namespace = namespace_of_all;
      name = codes "in_flight_requests";
      help = codes "Number of HTTP requests currently being processed.";
      label_names = [];
    }
    ∷ []

abbrev pub resource_metrics : List Opts
resource_metrics =
    record {
      kind = new_counter;
      namespace = namespace_of_all;
      name = codes "cpu_seconds_total";
      help = codes "Total CPU time consumed by load generation in seconds.";
      label_names = [];
    }
    ∷ record {
      kind = new_gauge;
      namespace = namespace_of_all;
      name = codes "memory_allocated_bytes";
      help = codes "Bytes currently allocated for memory load generation.";
      label_names = [];
    }
    ∷ record {
      kind = new_counter;
      namespace = namespace_of_all;
      name = codes "io_bytes_total";
      help = codes "Total bytes transferred by I/O operations.";
      label_names = codes "operation" ∷ [];
    }
    ∷ []

abbrev pub active_metrics : List Opts
active_metrics =
    record {
      kind = new_gauge;
      namespace = namespace_of_all;
      name = codes "active_cpu_operations";
      help = codes "Number of concurrent CPU load operations.";
      label_names = [];
    }
    ∷ record {
      kind = new_gauge;
      namespace = namespace_of_all;
      name = codes "active_memory_allocations";
      help = codes "Number of concurrent memory allocations.";
      label_names = [];
    }
    ∷ record {
      kind = new_gauge;
      namespace = namespace_of_all;
      name = codes "active_io_operations";
      help = codes "Number of concurrent I/O operations.";
      label_names = [];
    }
    ∷ []

abbrev pub lifecycle_metrics : List Opts
lifecycle_metrics =
    record {
      kind = new_gauge;
      namespace = namespace_of_all;
      name = codes "startup_complete";
      help = codes "Whether the server has completed startup (0 or 1).";
      label_names = [];
    }
    ∷ record {
      kind = new_gauge;
      namespace = namespace_of_all;
      name = codes "startup_duration_seconds";
      help = codes "Time taken for server to become ready in seconds.";
      label_names = [];
    }
    ∷ record {
      kind = new_gauge;
      namespace = namespace_of_all;
      name = codes "shutdown_in_progress";
      help = codes "Whether the server is shutting down (0 or 1).";
      label_names = [];
    }
    ∷ record {
      kind = new_gauge;
      namespace = namespace_of_all;
      name = codes "shutdown_started_timestamp_seconds";
      help = codes "Unix timestamp when shutdown started (0 if not shutting down).";
      label_names = [];
    }
    ∷ []

abbrev pub fault_metrics : List Opts
fault_metrics =
    record {
      kind = new_counter;
      namespace = namespace_of_all;
      name = codes "fault_errors_injected_total";
      help = codes "Total number of errors injected by fault injection.";
      label_names = codes "endpoint" ∷ codes "status" ∷ [];
    }
    ∷ record {
      kind = new_gauge;
      namespace = namespace_of_all;
      name = codes "fault_error_rate";
      help = codes "Configured error injection rate by endpoint.";
      label_names = codes "endpoint" ∷ [];
    }
    ∷ []

abbrev pub sidecar_metrics : List Opts
sidecar_metrics =
    record {
      kind = new_counter;
      namespace = namespace_of_all;
      name = codes "sidecar_cpu_burn_seconds_total";
      help = codes "Total CPU time burned by sidecar mode in seconds.";
      label_names = [];
    }
    ∷ record {
      kind = new_gauge;
      namespace = namespace_of_all;
      name = codes "sidecar_memory_held_bytes";
      help = codes "Bytes currently held by sidecar memory allocation.";
      label_names = [];
    }
    ∷ record {
      kind = new_gauge;
      namespace = namespace_of_all;
      name = codes "sidecar_mode";
      help = codes "Whether the server is running in sidecar mode (0 or 1).";
      label_names = [];
    }
    ∷ []

abbrev pub queue_metrics : List Opts
queue_metrics =
    record {
      kind = new_gauge;
      namespace = namespace_of_all;
      name = codes "queue_depth";
      help = codes "Total number of items in the queue.";
      label_names = [];
    }
    ∷ record {
      kind = new_gauge;
      namespace = namespace_of_all;
      name = codes "queue_depth_by_priority";
      help = codes "Number of items in the queue by priority.";
      label_names = codes "priority" ∷ [];
    }
    ∷ record {
      kind = new_counter;
      namespace = namespace_of_all;
      name = codes "queue_items_enqueued_total";
      help = codes "Total number of items enqueued.";
      label_names = [];
    }
    ∷ record {
      kind = new_counter;
      namespace = namespace_of_all;
      name = codes "queue_items_processed_total";
      help = codes "Total number of items processed successfully.";
      label_names = [];
    }
    ∷ record {
      kind = new_counter;
      namespace = namespace_of_all;
      name = codes "queue_items_failed_total";
      help = codes "Total number of items that failed processing.";
      label_names = [];
    }
    ∷ record {
      kind = new_gauge;
      namespace = namespace_of_all;
      name = codes "queue_active_workers";
      help = codes "Number of workers currently processing items.";
      label_names = [];
    }
    ∷ record {
      kind = new_histogram;
      namespace = namespace_of_all;
      name = codes "queue_processing_seconds";
      help = codes "Time spent processing queue items.";
      label_names = [];
    }
    ∷ record {
      kind = new_gauge;
      namespace = namespace_of_all;
      name = codes "queue_oldest_item_age_seconds";
      help = codes "Age of the oldest item in the queue in seconds.";
      label_names = [];
    }
    ∷ []

-- In the order of the file, which is that of the initialisation.
abbrev pub collectors : List Opts
collectors =
    request_metrics ++ resource_metrics ++ active_metrics ++ lifecycle_metrics ++ fault_metrics
    ++ sidecar_metrics ++ queue_metrics

infixl 5 ◌>>=◌
abbrev ◌>>=◌ : {A B : Type 0} → Option A → (A → Option B) → Option B
none >>= next = none
some value >>= next = next value

module _ {R : Type 0} (must_register : R → Opts → Option R) where
  -- `none` is a panic.
  unfoldable pub register_all : List Opts → R → Option R
  register_all [] r = some r
  register_all (o ∷ os) r = do next ← must_register r o; register_all os next
