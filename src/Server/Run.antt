-- ===== src/Server/Run.antt =====
-- `Run` of internal/server/server.go, around the chain of middlewares. `http.TimeoutHandler` and what
-- `httpServer.Shutdown` returns for a time limit are arguments, and so is which case the `select` takes.
use hotpod.Prelude.{Bool, true, false, if◌then◌else◌}
use hotpod.Prelude.Int.{ℤ, pos, is_pos, ◌+ℤ◌, wrap_int64}
use hotpod.Config.Validate.{Config}

-- The handler that is served: `time_out` is `http.TimeoutHandler`.
unfoldable pub timed_handler : {H : Type 0} → (ℤ → H → H) → Config → H → H
timed_handler time_out c h = if is_pos c.request_timeout then time_out c.request_timeout h else h

-- The case of the `select`: `ListenAndServe` failed, or a signal came.
pub data Awaited : Type 0 where
  fails_listening signalled : Awaited

-- `s.cfg.ShutdownTimeout+s.cfg.ShutdownDelay+5*time.Second`
unfoldable pub shutdown_limit : Config → ℤ
shutdown_limit c =
    wrap_int64 (wrap_int64 (c.shutdown_timeout +ℤ c.shutdown_delay) +ℤ pos 5000000000)

pub data RunResult : Type 0 where
  server_error shutdown_error returned : RunResult

-- `closes` is whether `httpServer.Shutdown` returns without an error under a time limit.
unfoldable pub run_server : (ℤ → Bool) → Awaited → Config → RunResult
unfolding shutdown_limit
run_server closes fails_listening c = server_error
run_server closes signalled c = if closes (shutdown_limit c) then returned else shutdown_error

unfoldable pub is_error : RunResult → Bool
is_error returned = false
is_error _ = true
