-- ===== src/Win/Port/Send.antt =====
-- src/serial_port_win_base.cpp: `send` in both modes.
use lib_sp.Base.{
  ℕ, true, not, Option, none, some, List, ℤ, pos, minus, to_signed, ◌==◌, take, if◌then◌else◌,
}
use lib_sp.Effect.{blocked, pure, ◌>>=◌, ◌>>◌}
use lib_sp.Params.Enums.{mode_async}
use lib_sp.Win.State.{Overlapped}
use lib_sp.Win.Os.{
  Os, M, get_param, put_comm, invoke, answer, call_create_event, call_write_file,
  call_get_overlapped_result,
}
use lib_sp.Win.Port.{succeeded, unlock, is_opened}

abbrev pub error_io_pending : ℕ
error_io_pending = 997

abbrev pub cleared : ℕ → Overlapped
cleared h = record { internal = 0; internal_high = 0; offset = 0; offset_high = 0; h_event = h }

module _ (os : Os) where
  -- The `catch` block.
  abbrev caught : M ℤ
  caught = do e ← answer os.last_error; pure (to_signed 32 e)

  -- `lock` in the `try` block and the rest of the block; where `lock` throws, the `catch` block.
  -- Where the mutex is held its owner is the caller itself.
  unfoldable pub locking : M ℤ → M ℤ
  locking rest w =
      if not w.mutex_recv
      then rest
          (record w { param = record w.param { thread = record w.thread { mutex_recv = true } } })
      else if os.relock_throws w.trace
      then caught w
      else blocked w

  -- `send_async` from `lock` on.
  unfoldable pub write_async : List ℕ → ℕ → M ℤ
  unfolding locking unlock
  write_async pdata data_len = do
    p ← get_param
    locking (do
      written ← invoke os (call_write_file p.comm_handle (take data_len pdata))
      e ← answer os.last_error
      unlock
      if succeeded written
          then pure (pos 0)
          else if e == error_io_pending
          then (do
            finished ← invoke os (call_get_overlapped_result p.comm_handle)
            e2 ← answer os.last_error
            pure (if succeeded finished then to_signed 32 data_len else to_signed 32 e2))
          else (do e2 ← answer os.last_error; pure (to_signed 32 e2)))

  unfoldable pub send_async : List ℕ → ℕ → M ℤ
  unfolding write_async
  send_async pdata data_len = do
    h ← invoke os call_create_event
    p ← get_param
    put_comm (record p.comm_info { over_lapped_write = cleared h })
    write_async pdata data_len

  -- The code locks again where it means to unlock.
  unfoldable pub send_sync : List ℕ → ℕ → M ℤ
  unfolding locking
  send_sync pdata data_len = do
    p ← get_param
    locking (do
      written ← invoke os (call_write_file p.comm_handle (take data_len pdata))
      e ← answer os.last_error
      locking (pure (if succeeded written then pos 0 else to_signed 32 e)))

  -- `send`; `pdata` is `none` for a null pointer. Of what it calls only `lock` throws.
  unfoldable pub send : Option (List ℕ) → ℕ → M ℤ
  unfolding is_opened send_async send_sync
  send none data_len = pure (minus 1)
  send (some pdata) data_len = if data_len == 0 then pure (minus 1) else (do
    opened ← is_opened
    p ← get_param
    if not opened
        then pure (minus 2)
        else if mode_async == p.spp.op_mode
        then send_async pdata data_len
        else send_sync pdata data_len)
