-- ===== src/Win/Reader.antt =====
-- src/serial_port_win_base.cpp: the loop of `thread_recv_data_monitor`, and `read_data`.
pub mod Silence
use Prim.Native.Nat.{bit_and}
use lib_sp.Base.{
  ℕ, zero, suc, ◌-◌, ◌^◌, ◌%◌, Bool, true, false, not, Option, none, some, List, [], ◌∷◌, ℤ, pos,
  ltb, leb, ◌==◌, take, if◌then◌else◌,
}
use lib_sp.Effect.{pure, blocked, ◌>>=◌, ◌>>◌}
use lib_sp.Params.Enums.{mode_async}
use lib_sp.Linux.State.{len_buf_1024}
use lib_sp.Win.State.{invalid_handle_value, Overlapped}
use lib_sp.Win.Os.{
  Os, World, M, get_param, put_comm, invoke, answer, on_recv_data, call_create_event,
  call_close_handle, call_reset_event, call_wait_for_single_object, call_read_file,
  call_get_overlapped_result, call_clear_comm_error, call_wait_comm_event,
}
use lib_sp.Win.Port.{succeeded, lock, unlock, get_recv_thread_is_running}
use lib_sp.Win.Port.Send.{error_io_pending, cleared}

abbrev pub wait_object_0 : ℕ
wait_object_0 = 0

abbrev pub infinite : ℕ
infinite = 2 ^ 32 - 1

abbrev pub ev_rxchar : ℕ
ev_rxchar = 1

abbrev pub ev_txempty : ℕ
ev_txempty = 4

-- A call through the pointer `_precv_data`.
abbrev notify : Option ℕ → List ℕ → M (Unit {0})
notify none data_read = blocked
notify (some r) data_read = on_recv_data r data_read

abbrev pub test_bit : ℕ → ℕ → Bool
test_bit flag mask = not (bit_and flag mask == 0)

-- What `WaitCommEvent` has left in the local variable.
abbrev pub stored_or : ℕ → Option ℕ → ℕ
stored_or event_mask none = event_mask
stored_or event_mask (some m) = m

-- How a round of the loop ends: with the local `event_mask`, or with the thread's exit code.
pub data Loop : Type 0 where
  goes_on : (event_mask : ℕ) → Loop
  exits : (code : ℕ) → Loop

abbrev pub follow : (ℕ → M Loop) → Loop → M Loop
follow next (goes_on event_mask) = next event_mask
follow next (exits code) = pure (exits code)

module _ (os : Os) where
  -- What follows `ReadFile` in the asynchronous mode. Where a read is pending its bytes are awaited
  -- and not handed on.
  unfoldable pub finish_read : ℕ → ℕ → List ℕ → ℕ → M (Unit {0})
  finish_read read e data_read count = do
    p ← get_param
    if succeeded read
        then elim p.precv_data [
          | none ↦ pure tt
          | some r ↦ (if ltb len_buf_1024 count then pure tt else on_recv_data r data_read)
        ]
        else if e == error_io_pending
        then (do _ ← invoke os (call_get_overlapped_result p.comm_handle); pure tt)
        else pure tt

  -- `read_data` in the asynchronous mode, with the mutex held.
  unfoldable pub read_async : ℕ → M (Unit {0})
  unfolding finish_read
  read_async max_size = do
    h ← invoke os call_create_event
    p ← get_param
    put_comm (record p.comm_info { over_lapped_read = cleared h })
    read ← invoke os (call_read_file p.comm_handle max_size)
    e ← answer os.last_error
    bytes ← answer os.bytes
    count ← answer os.transferred
    finish_read read e (take count bytes) count
    q ← get_param
    _ ← invoke os (call_close_handle q.over_lapped_read.h_event)
    pure tt

  -- The same in the synchronous mode, where the receiver is not tested.
  unfoldable pub read_sync : ℕ → M (Unit {0})
  read_sync max_size = do
    p ← get_param
    read ← invoke os (call_read_file p.comm_handle max_size)
    bytes ← answer os.bytes
    count ← answer os.transferred
    if succeeded read
        then if ltb len_buf_1024 count then pure tt else notify p.precv_data (take count bytes)
        else pure tt

  unfoldable pub read_locked : ℕ → M (Unit {0})
  unfolding read_async read_sync
  read_locked max_size = do
    p ← get_param
    if mode_async == p.spp.op_mode then read_async max_size else read_sync max_size

  -- `max_size`, from the number of bytes in the queue in the asynchronous mode.
  unfoldable pub get_max_size : M ℕ
  get_max_size = do
    p ← get_param
    if mode_async == p.spp.op_mode
        then (do
          _ ← invoke os (call_clear_comm_error p.comm_handle)
          n ← answer os.cb_in_que
          pure (if ltb len_buf_1024 n then len_buf_1024 else n))
        else pure len_buf_1024

  unfoldable pub read_data : M ℤ
  unfolding lock unlock get_max_size read_locked
  read_data = do
    p ← get_param
    if not (invalid_handle_value == p.comm_handle)
        then pure (pos 0)
        else (do max_size ← get_max_size; lock; read_locked max_size; unlock; pure (pos 0))

  -- The part of a round for EV_RXCHAR.
  unfoldable pub receive : M (Unit {0})
  unfolding read_data
  receive = do
    p ← get_param
    _ ← invoke os (call_clear_comm_error p.comm_handle)
    n ← answer os.cb_in_que
    if leb p.min_bytes_read_notify n then (do _ ← read_data; pure tt) else pure tt

  unfoldable pub on_rxchar : ℕ → M (Unit {0})
  unfolding receive
  on_rxchar event_mask = if test_bit ev_rxchar event_mask then receive else pure tt

  unfoldable pub on_txempty : ℕ → M (Unit {0})
  on_txempty event_mask =
      if test_bit ev_txempty event_mask
      then (do p ← get_param; _ ← invoke os (call_get_overlapped_result p.comm_handle); pure tt)
      else pure tt

  -- What follows when the event of the monitor is set.
  unfoldable pub handle_event : ℕ → M Loop
  unfolding on_rxchar on_txempty
  handle_event event_mask = do
    p ← get_param
    done ← invoke os (call_get_overlapped_result p.comm_handle)
    if not (succeeded done)
        then pure (exits 1)
        else (do on_rxchar event_mask; on_txempty event_mask; pure (goes_on event_mask))

  -- The body of the loop. `WaitCommEvent` stores the mask now or when the event is set.
  unfoldable pub round : ℕ → M Loop
  unfolding handle_event
  round event_mask = do
    p ← get_param
    _ ← invoke os (call_wait_comm_event p.comm_handle)
    waited ← invoke os (call_wait_for_single_object p.over_lapped_monitor.h_event infinite)
    mask ← answer os.event_mask
    if waited == wait_object_0
        then handle_event (stored_or event_mask mask)
        else pure (goes_on (stored_or event_mask mask))

  -- At most `n` rounds, for as long as the flag is seen set.
  unfoldable pub rounds : ℕ → ℕ → M Loop
  unfolding get_recv_thread_is_running round
  rounds zero event_mask = pure (goes_on event_mask)
  rounds (suc n) event_mask = do
    running ← get_recv_thread_is_running
    if not running then pure (exits 0) else (do l ← round event_mask; follow (rounds n) l)

  -- `thread_recv_data_monitor`, followed for at most `n` rounds.
  unfoldable pub thread_recv_data_monitor : ℕ → M Loop
  unfolding rounds
  thread_recv_data_monitor n = do
    p ← get_param
    if invalid_handle_value == p.comm_handle
        then pure (exits 0)
        else (do _ ← invoke os (call_reset_event p.comm_handle); rounds n 0)
