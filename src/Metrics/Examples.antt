-- ===== src/Metrics/Examples.antt =====
-- The collectors of internal/metrics/prometheus.go: a witness and tests.
use hotpod.Prelude.{◌≡◌, refl, Option, none, some, List, [], ◌∷◌, if◌then◌else◌}
use hotpod.Prelude.Text.{Text, codes, text_eq}
use hotpod.Prelude.Names.{free}
use hotpod.Metrics.Defs.{Opts, register_all, queue_metrics}
use hotpod.Metrics.Registered.{joined, full_names}

-- A registry that is the list of the full names.
abbrev add_name : List Text → Opts → Option (List Text)
add_name r o =
    if free (full_names joined (o ∷ [])) r then some (joined o.namespace o.name ∷ r) else none

abbrev names_of : List Text → List Text
names_of r = r

abbrev go_names : List Text
go_names = codes "go_goroutines" ∷ codes "process_open_fds" ∷ []

twice_panics : register_all add_name queue_metrics (codes "hotpod_queue_depth" ∷ []) ≡ none
unfolding text_eq register_all
twice_panics = refl
