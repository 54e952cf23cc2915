-- ===== src/Endpoints/Io.antt =====
-- internal/handlers/io.go: `IO`, the handler around `performIO` of the module `Files`.
use hotpod.Prelude.{ℕ, suc, ◌*◌, Bool, false, Option, none, some, List, [], ◌∷◌, if◌then◌else◌}
use hotpod.Prelude.Int.{ℤ, pos, pos_part, is_neg}
use hotpod.Prelude.Text.{Text, codes, text_eq}
use hotpod.Config.Parse.{parse_bool}
use hotpod.Config.DirName.{is_empty}
use hotpod.Load.Defs.{Tracker, io}
use hotpod.Files.Defs.{Disk, Done, Operation, writes, reads, mixes, perform_io}
use hotpod.Handlers.Response.{
  Response, answer, ◌>>=◌, ◌>>◌, reject, or_invalid, Query, invalid_parameter, size_param,
}
use hotpod.Endpoints.Defs.{choice_param, cap, handle}

pub record IoOrder : Type 0 where
  pub size : ℤ
  pub operation : Text
  pub do_sync : Bool
  pub limit_applied : Bool

abbrev pub operations : List Text
operations = codes "write" ∷ codes "read" ∷ codes "mixed" ∷ []

unfoldable pub bool_param : Query → Text → Response Bool
unfolding is_empty parse_bool
bool_param query key =
    if is_empty (query key) then answer false else or_invalid (parse_bool (query key))

unfoldable pub read_io : ℤ → Query → Response IoOrder
unfolding size_param choice_param bool_param cap
read_io max_size query = do
  size ← size_param query (codes "size") (pos 10485760)
  reject (is_neg size) 400 invalid_parameter
  operation ← choice_param query (codes "operation") (codes "write") operations
  do_sync ← bool_param query (codes "sync")
  answer (record {
    size = (cap max_size size).0;
    operation = operation;
    do_sync = do_sync;
    limit_applied = (cap max_size size).1;
  })

-- The cases of the switch in `performIO`; a text that is none of them does nothing.
unfoldable pub operation_of : Text → Option Operation
unfolding text_eq
operation_of s =
    if text_eq s (codes "write")
    then some writes
    else if text_eq s (codes "read")
    then some reads
    else if text_eq s (codes "mixed")
    then some mixes
    else none

pub record IoResponse : Type 0 where
  pub order : IoOrder
  pub bytes_written : ℕ
  pub bytes_read : ℕ
  pub cancelled : Bool

abbrev io_response : IoOrder → Done → IoResponse
io_response order r = record {
  order = order;
  bytes_written = r.bytes_written;
  bytes_read = r.bytes_read;
  cancelled = r.cancelled;
}

-- The fuel is what `perform_io-DoneWithin` needs.
unfoldable pub run_io : Disk → IoOrder → Option IoResponse
unfolding operation_of perform_io
run_io d order = elim (operation_of order.operation) [
  | none ↦ some (record { order = order; bytes_written = 0; bytes_read = 0; cancelled = false })
  | some op ↦
      let size = pos_part order.size in
      elim (perform_io (suc (2 * size)) d op order.do_sync size) [
        | none ↦ none
        | some r ↦ some (io_response order r)
      ]
]

-- `IO`
unfoldable pub io_handler :
    ℤ → Disk → Query → (Tracker → Tracker) → Tracker → Tracker × Option (Response IoResponse)
unfolding handle read_io run_io
io_handler max_size d query = handle io (read_io max_size query) (run_io d)
