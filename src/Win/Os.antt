-- ===== src/Win/Os.antt =====
-- The Windows calls of the port, answered by a parameter, and the state that its methods pass on.
use lib_sp.Base.{ℕ, Bool, Option, List, ◌∷◌}
use lib_sp.Effect
use lib_sp.Effect.{returned}
use lib_sp.Win.State.{Dcb, CommConfig, CommTimeouts, CommInfoWin, SpThreadWin, SpParamWin}

-- The calls, with the arguments that the code computes.
pub data Call : Type 0 where
  call_create_event : Call
  call_create_file : (path : List ℕ) (access flags : ℕ) → Call
  call_get_comm_config : (handle : ℕ) → Call
  call_get_comm_state : (handle : ℕ) → Call
  call_set_comm_config : (handle : ℕ) (cfg : CommConfig) → Call
  call_purge_comm : (handle flags : ℕ) → Call
  call_set_comm_timeouts : (handle : ℕ) (time_out : CommTimeouts) → Call
  call_set_comm_mask : (handle mask : ℕ) → Call
  call_begin_thread : Call
  call_close_handle : (handle : ℕ) → Call
  call_reset_event : (handle : ℕ) → Call
  call_wait_for_single_object : (handle milliseconds : ℕ) → Call
  call_write_file : (handle : ℕ) (data_written : List ℕ) → Call
  call_read_file : (handle count : ℕ) → Call
  call_get_overlapped_result : (handle : ℕ) → Call
  call_clear_comm_error : (handle : ℕ) → Call
  call_wait_comm_event : (handle : ℕ) → Call
  call_rotating_logger : Call
  call_shutdown : Call

-- A call and what it returned; a failing `BOOL` is 0, and so is a call of `spdlog::rotating_logger_mt`
-- that throws.
pub data Event : Type 0 where
  event : Call → ℕ → Event

-- What the system answers may depend on all that was called before, the newest call first. The
-- fields after `result` are what the last call of the list left: the code of `GetLastError`, the
-- structures of `GetCommConfig` and `GetCommState` (which may leave them as they were), the number
-- of bytes transferred, the bytes of `ReadFile`, the count `cbInQue` of `ClearCommError`, and the
-- mask of `WaitCommEvent` (`none` if none was stored). What a second `std::mutex::lock` by the owner
-- does is not defined; `relock_throws` tells whether it throws a `system_error`.
pub record Os : Type 0 where
  pub result : List Event → Call → ℕ
  pub last_error : List Event → ℕ
  pub comm_config : List Event → CommConfig → CommConfig
  pub comm_state : List Event → Dcb → Dcb
  pub transferred : List Event → ℕ
  pub bytes : List Event → List ℕ
  pub cb_in_que : List Event → ℕ
  pub event_mask : List Event → Option ℕ
  pub relock_throws : List Event → Bool

-- The object, the calls made so far and the data handed to `on_recv_data`, newest first.
pub record World : Type 0 where
  pub param : SpParamWin
  pub open param use *
  pub trace : List Event
  pub delivered : List (ℕ × List ℕ)

abbrev pub M : Type 0 → Type 0
M A = Effect.M World A

abbrev pub get_param : M SpParamWin
get_param w = returned w.param w

abbrev pub put_param : SpParamWin → M (Unit {0})
put_param p w = returned tt (record w { param = p })

abbrev pub put_comm : CommInfoWin → M (Unit {0})
put_comm c w = returned tt (record w { param = record w.param { comm_info = c } })

abbrev pub put_thread : SpThreadWin → M (Unit {0})
put_thread t w = returned tt (record w { param = record w.param { thread = t } })

module _ (os : Os) where
  -- Make a call and record it.
  abbrev pub invoke : Call → M ℕ
  invoke c w = let r = os.result w.trace c in returned r (record w { trace = event c r ∷ w.trace })

-- What the last call left behind, read by a field of `Os`.
abbrev pub answer : {A : Type 0} → (List Event → A) → M A
answer f w = returned (f w.trace) w

-- `on_recv_data` of receiver `r`.
abbrev pub on_recv_data : ℕ → List ℕ → M (Unit {0})
on_recv_data r data_read w = returned tt (record w { delivered = (r, data_read) ∷ w.delivered })
