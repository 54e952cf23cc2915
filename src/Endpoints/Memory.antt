-- ===== src/Endpoints/Memory.antt =====
-- internal/handlers/memory.go: `fillMemory`, `holdMemory` and `Memory`. The bytes are a function of their
-- index, next to their number; a write out of range is a panic, and `none`.
use hotpod.Prelude.{
  ℕ, zero, suc, ◌+◌, ◌-◌, ◌/◌, ◌%◌, ◌^◌, Bool, Option, none, some, List, [], ◌∷◌, ltb, leb, ◌==◌,
  if◌then◌else◌,
}
use hotpod.Prelude.Int.{ℤ, pos, pos_part, is_neg}
use hotpod.Prelude.Text.{Text, codes, text_eq}
use hotpod.Load.Defs.{Tracker, memory}
use hotpod.Handlers.Response.{
  Response, answer, ◌>>=◌, ◌>>◌, reject, Query, invalid_parameter, parse_duration, size_param,
}
use hotpod.Endpoints.Defs.{choice_param, cap, handle}

abbrev pub Bytes : Type 0
Bytes = ℕ → ℕ

-- `data[i] = v` for a byte `v`, where `data` has `n` bytes.
unfoldable pub put : ℕ → ℕ → ℕ → Option Bytes → Option Bytes
put n i v none = none
put n i v (some bytes) = if ltb i n then some (λ j. if j == i then v else bytes j) else none

-- `byte(v >> k)`
unfoldable pub byte_of : ℕ → ℕ → ℕ
byte_of v k = v / 2 ^ k % 256

-- The eight writes of a round of the loop.
unfoldable pub put_word : ℕ → ℕ → ℕ → Option Bytes → Option Bytes
unfolding put byte_of
put_word n i v bytes = put n (i + 7) (byte_of v 56) (
    put n (i + 6) (byte_of v 48) (
      put n (i + 5) (byte_of v 40) (
        put n (i + 4) (byte_of v 32) (
          put n (i + 3) (byte_of v 24) (
            put n (i + 2) (byte_of v 16)
              (put n (i + 1) (byte_of v 8) (put n i (byte_of v 0) bytes)))))))

-- The first loop for `patternRandom`, with fuel: `words` and `halves` are what `rand.Uint64` and
-- `rand.Uint32` return at an index.
unfoldable pub fill_words : ℕ → (ℕ → ℕ) → ℕ → ℕ → Option Bytes → Option Bytes
unfolding put_word
fill_words zero words n i bytes = none
fill_words (suc fuel) words n i bytes =
    let rest = fill_words fuel words n (i + 8) (put_word n i (words i) bytes) in
    if leb (i + 8) n then rest else bytes

-- A loop that writes every byte from `i` on, `left` rounds.
unfoldable pub fill_each : ℕ → (ℕ → ℕ) → ℕ → ℕ → Option Bytes → Option Bytes
unfolding put
fill_each zero byte n i bytes = bytes
fill_each (suc left) byte n i bytes = fill_each left byte n (suc i) (put n i (byte i % 256) bytes)

-- `len(data) &^ 7` is `n - n % 8`.
unfoldable pub fill_memory : (ℕ → ℕ) → (ℕ → ℕ) → Text → ℕ → Bytes → Option Bytes
unfolding fill_words fill_each
fill_memory words halves pattern n bytes =
    if text_eq pattern (codes "zero")
    then some bytes
    else if text_eq pattern (codes "random")
    then fill_each (n % 8) halves n (n - n % 8) (fill_words (suc n) words n 0 (some bytes))
    else if text_eq pattern (codes "sequential")
    then fill_each n (λ i. i) n 0 (some bytes)
    else some bytes

-- `holdMemory` waits for the timer or the context: `cancelled` is which of them it was. `none` is the panic
-- of `make` for a size that is below 0 or that it cannot give, or of an index out of range.
unfoldable pub hold_memory : (ℕ → ℕ) → (ℕ → ℕ) → Bool → Bool → ℤ → Text → Option Bool
unfolding fill_memory
hold_memory words halves too_large cancelled size pattern =
    if is_neg size
    then none
    else if too_large
    then none
    else elim (fill_memory words halves pattern (pos_part size) (λ i. 0)) [
      | none ↦ none
      | some bytes ↦ some cancelled
    ]

-- The order of a call of `/memory`, limit applied.
pub record MemoryOrder : Type 0 where
  pub size : ℤ
  pub duration : ℤ
  pub pattern : Text
  pub limit_applied : Bool

abbrev pub patterns : List Text
patterns = codes "zero" ∷ codes "random" ∷ codes "sequential" ∷ []

unfoldable pub read_memory : (Text → Option ℤ) → ℤ → Query → Response MemoryOrder
unfolding size_param parse_duration choice_param cap
read_memory duration max_size query = do
  size ← size_param query (codes "size") (pos 10485760)
  reject (is_neg size) 400 invalid_parameter
  time ← parse_duration duration query (codes "duration") (pos 10000000000)
  reject (is_neg time) 400 invalid_parameter
  pattern ← choice_param query (codes "pattern") (codes "random") patterns
  answer (record {
    size = (cap max_size size).0;
    duration = time;
    pattern = pattern;
    limit_applied = (cap max_size size).1;
  })

pub record MemoryResponse : Type 0 where
  pub order : MemoryOrder
  pub cancelled : Bool

unfoldable pub run_memory : (ℕ → ℕ) → (ℕ → ℕ) → Bool → Bool → MemoryOrder → Option MemoryResponse
unfolding hold_memory
run_memory words halves too_large cancelled order =
    elim (hold_memory words halves too_large cancelled order.size order.pattern) [
      | none ↦ none
      | some cut ↦ some (record { order = order; cancelled = cut })
    ]

-- `Memory`
unfoldable pub memory_handler :
    (Text → Option ℤ)
    → ℤ
    → (ℕ → ℕ)
    → (ℕ → ℕ)
    → Bool
    → Bool
    → Query
    → (Tracker → Tracker)
    → Tracker
    → Tracker × Option (Response MemoryResponse)
unfolding handle read_memory run_memory
memory_handler duration max_size words halves too_large cancelled query =
    handle memory (read_memory duration max_size query)
      (run_memory words halves too_large cancelled)
