-- ===== src/Linux/Port.antt =====
-- src/serial_port_linux_base.cpp: the methods of `serial_port_linux_base` that the caller runs.
pub mod History
pub mod Descriptors
pub mod Opening
pub mod Locking
pub mod Threads
use Prim.Native.Nat.{bit_or}
use lib_sp.Base.{
  ℕ, Bool, true, false, not, Option, none, some, List, [], ℤ, pos, minus, eq_ℤ, is_negative, ltb,
  ◌==◌, take, if◌then◌else◌,
}
use lib_sp.Params.Props.{os_is_linux, SpProp}
use lib_sp.Params.Check.{get_instance, is_right}
use lib_sp.Linux.Termios.{configure}
use lib_sp.Linux.Live.{threads, is_among}
use lib_sp.Linux.State.{len_buf_1024, invalid_value, invalid_thread, param_zero}
use lib_sp.Effect.{returned, blocked, pure, ◌>>=◌, ◌>>◌}
use lib_sp.Linux.Os.{
  Os, World, M, get_param, put_param, invoke, get_errno, get_attributes, get_thread_id, call_open,
  call_fcntl, call_tcgetattr, call_tcflush, call_tcsetattr, call_pthread_create, call_pthread_join,
  call_close, call_write,
}

-- The constructor; a program that has not called the system yet.
unfoldable pub new : World
new = record { param = param_zero; trace = []; delivered = [] }

-- `pthread_mutex_lock` on the default mutex: a second lock waits, also the owner's own.
unfoldable pub lock : M (Unit {0})
lock w =
    if w.mutex_recv
    then blocked w
    else returned tt
        (record w { param = record w.param { thread = record w.thread { mutex_recv = true } } })

unfoldable pub unlock : M (Unit {0})
unlock w =
    returned tt
      (record w { param = record w.param { thread = record w.thread { mutex_recv = false } } })

unfoldable pub is_opened : M Bool
is_opened w = returned (not (eq_ℤ invalid_value w.fd)) w

unfoldable pub set_thread_recv_data_is_running : Bool → M (Unit {0})
set_thread_recv_data_is_running b w = returned tt (record w {
  param = record w.param { thread = record w.thread { thread_recv_is_running = b } };
})

abbrev set_thread_recv : ℕ → M (Unit {0})
set_thread_recv t w =
    returned tt
      (record w { param = record w.param { thread = record w.thread { thread_recv = t } } })

abbrev set_fd : ℤ → M (Unit {0})
set_fd fd w = returned tt (record w { param = record w.param { fd = fd } })

abbrev store_receiver : Option ℕ → M (Unit {0})
store_receiver none w = returned tt w
store_receiver (some r) w =
    returned tt
      (record w { param = record w.param { thread = record w.thread { precv_data = some r } } })

-- `precv_data` is kept where the call passes `nullptr`.
unfoldable pub init : SpProp → Option ℕ → M ℤ
init spp precv_data = do
  let r = is_right (get_instance os_is_linux) spp
  if not (eq_ℤ (pos 0) r)
      then pure r
      else (do p ← get_param; put_param (record p { spp = spp }); store_receiver precv_data; pure r)

-- `min_byte_read_notify` is capped at the size of the buffer.
unfoldable pub set_read_notify : ℕ → M (Unit {0})
set_read_notify len w = returned tt (record w {
  param = record w.param {
    others = record { min_byte_read_notify = if ltb len_buf_1024 len then len_buf_1024 else len };
  };
})

-- O_RDWR | O_NOCTTY | O_NDELAY
abbrev pub open_flags : ℕ
open_flags = bit_or (bit_or 0o2 0o400) 0o4000

-- What follows has no defined behaviour.
abbrev undefined : {A : Type 0} → M A
undefined w = blocked w

module _ (os : Os) where
  unfoldable pub set_port_params : M ℤ
  set_port_params = do
    p ← get_param
    r ← invoke os (call_tcgetattr p.fd)
    options ← get_attributes os
    if is_negative r then pure (minus 1) else (do
      let baud = p.spp.baud_rate
      let timed = os.cfsetospeed (os.cfsetispeed options baud) baud
      _ ← invoke os (call_tcflush p.fd)
      s ← invoke os (call_tcsetattr p.fd (configure p.spp timed))
      pure (if is_negative s then minus 2 else s))

  unfoldable pub start_thread_recv : M Bool
  unfolding set_thread_recv_data_is_running
  start_thread_recv = do
    set_thread_recv_data_is_running true
    ret ← invoke os call_pthread_create
    set_thread_recv (← get_thread_id os)
    pure (not (is_negative ret))

  -- Whether a handle names a thread that can be joined.
  abbrev is_joinable : ℕ → M Bool
  is_joinable thread w = returned (is_among thread (threads os w.trace)) w

  -- `pthread_join` with a handle that names no such thread, as `invalid_value` where none was
  -- created, has no defined behaviour.
  unfoldable pub stop_thread_recv : M ℤ
  unfolding set_thread_recv_data_is_running
  stop_thread_recv = do
    set_thread_recv_data_is_running false
    p ← get_param
    joinable ← is_joinable p.thread_recv
    if not joinable then undefined else (do
      _ ← invoke os (call_pthread_join p.thread_recv)
      set_thread_recv invalid_thread
      pure (pos 0))

  -- `close`; nothing that it calls throws.
  unfoldable pub close_port : M ℤ
  unfolding is_opened stop_thread_recv
  close_port = do
    opened ← is_opened
    if not opened then pure (minus 1) else (do
      _ ← stop_thread_recv
      p ← get_param
      _ ← invoke os (call_close p.fd)
      set_fd invalid_value
      pure (pos 0))

  -- A failure of `open` after the device was opened: the error is read before `close` runs.
  unfoldable pub give_up : M ℤ
  unfolding close_port
  give_up = do e ← get_errno os; _ ← close_port; pure e

  -- The end of `open`: a receiving thread, if there is a receiver.
  unfoldable pub start_receiver : M ℤ
  unfolding start_thread_recv
  start_receiver = do
    p ← get_param
    elim p.precv_data [
      | none ↦ pure (pos 0)
      | some _ ↦ (do started ← start_thread_recv; if started then pure (pos 0) else get_errno os)
    ]

  -- `open`
  unfoldable pub open_port : M ℤ
  unfolding is_opened set_port_params give_up start_receiver
  open_port = do
    opened ← is_opened
    if opened then pure (minus 1) else (do
      p ← get_param
      fd ← invoke os (call_open p.spp.name open_flags)
      set_fd fd
      if eq_ℤ invalid_value fd then get_errno os else (do
        blocking ← invoke os (call_fcntl fd)
        if is_negative blocking then give_up else (do
          r ← set_port_params
          if not (eq_ℤ (pos 0) r) then give_up else start_receiver)))

  -- `send`; `pdata` is `none` for a null pointer. Nothing that it calls throws.
  unfoldable pub send : Option (List ℕ) → ℕ → M ℤ
  unfolding lock unlock is_opened
  send none data_len = pure (minus 1)
  send (some pdata) data_len = if data_len == 0 then pure (minus 1) else (do
    lock
    opened ← is_opened
    if not opened then pure (minus 2) else (do
      p ← get_param
      r ← invoke os (call_write p.fd (take data_len pdata))
      unlock
      pure r))

  -- The destructor.
  unfoldable pub destroy : M (Unit {0})
  unfolding is_opened close_port
  destroy = do opened ← is_opened; if opened then (do _ ← close_port; pure tt) else pure tt
