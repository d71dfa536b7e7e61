-- ===== src/Linux/Os.antt =====
-- The system calls of the Linux port, answered by a parameter, and the monad in which the methods
-- of `serial_port_linux_base` run: state passing that records every call and that may block in
-- `pthread_mutex_lock`.
use lib_sp.Base.{ℕ, Option, List, ◌∷◌, ℤ}
use lib_sp.Effect
use lib_sp.Effect.{returned}
use lib_sp.Linux.Termios.{Termios}
use lib_sp.Linux.State.{SpParamLinux}

-- The calls, with the arguments that the code computes.
pub data Call : Type 0 where
  call_open : (path : List ℕ) (flags : ℕ) → Call
  call_fcntl : (fd : ℤ) → Call
  call_tcgetattr : (fd : ℤ) → Call
  call_tcflush : (fd : ℤ) → Call
  call_tcsetattr : (fd : ℤ) (options : Termios) → Call
  call_pthread_create : Call
  call_pthread_join : (thread : ℕ) → Call
  call_close : (fd : ℤ) → Call
  call_write : (fd : ℤ) (data_written : List ℕ) → Call
  call_fionread : (fd : ℤ) → Call
  call_read : (fd : ℤ) (count : ℕ) → Call

-- A call and what it returned.
pub data Event : Type 0 where
  event : Call → ℤ → Event

-- What the system answers may depend on all that was called before, the newest call first. The
-- fields after `result` are what the last call of the list stored: `errno`, the attributes of
-- `tcgetattr`, the thread of `pthread_create`, the number of `FIONREAD` (`none` if it stored none)
-- and the bytes of `read`.
pub record Os : Type 0 where
  pub result : List Event → Call → ℤ
  pub errno : List Event → ℤ
  pub attributes : List Event → Termios
  pub thread_id : List Event → ℕ
  pub pending : List Event → Option ℤ
  pub bytes : List Event → List ℕ
  pub cfsetispeed : Termios → ℕ → Termios
  pub cfsetospeed : Termios → ℕ → Termios

-- The object, the calls made so far and the data handed to `on_recv_data`, newest first.
pub record World : Type 0 where
  pub param : SpParamLinux
  pub open param use *
  pub trace : List Event
  pub delivered : List (ℕ × List ℕ)

abbrev pub M : Type 0 → Type 0
M A = Effect.M World A

abbrev pub get_param : M SpParamLinux
get_param w = returned w.param w

abbrev pub put_param : SpParamLinux → M (Unit {0})
put_param p w = returned tt (record w { param = p })

module _ (os : Os) where
  -- Make a call and record it.
  abbrev pub invoke : Call → M ℤ
  invoke c w = let r = os.result w.trace c in returned r (record w { trace = event c r ∷ w.trace })

  abbrev pub get_errno : M ℤ
  get_errno w = returned (os.errno w.trace) w

  abbrev pub get_attributes : M Termios
  get_attributes w = returned (os.attributes w.trace) w

  abbrev pub get_thread_id : M ℕ
  get_thread_id w = returned (os.thread_id w.trace) w

  abbrev pub get_pending : M (Option ℤ)
  get_pending w = returned (os.pending w.trace) w

  abbrev pub get_bytes : M (List ℕ)
  get_bytes w = returned (os.bytes w.trace) w

-- `on_recv_data` of receiver `r`.
abbrev pub on_recv_data : ℕ → List ℕ → M (Unit {0})
on_recv_data r data_read w = returned tt (record w { delivered = (r, data_read) ∷ w.delivered })
