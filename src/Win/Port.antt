-- ===== src/Win/Port.antt =====
-- src/serial_port_win_base.cpp: the methods of `serial_port_win_base` that the caller runs.
-- The messages of `log` are left out.
pub mod Open
pub mod Send
pub mod History
pub mod Closing
pub mod Opening
pub mod Sending
pub mod Naming
pub mod Handles
pub mod Codes
pub mod Logging
pub mod Frame
use Prim.Native.Nat.{bit_or}
use lib_sp.Base.{
  ℕ, ◌+◌, ◌-◌, ◌^◌, Bool, true, false, not, ◌&&◌, ◌||◌, Option, none, some, List, [], ◌++◌, ℤ, pos,
  minus, eq_ℤ, to_signed, codes, ◌==◌, take, if◌then◌else◌,
}
use lib_sp.Effect.{returned, blocked, pure, ◌>>=◌, ◌>>◌}
use lib_sp.Params.Enums.{mode_async, flow_ctl_none, flow_ctl_hardware, flow_ctl_software}
use lib_sp.Params.Props.{os_is_win, SpProp}
use lib_sp.Params.Check.{get_instance, is_right}
use lib_sp.Win.State.{invalid_handle_value, CommInfoWin, CommTimeouts, Overlapped, Dcb, param_zero}
use lib_sp.Win.Dcb.{set_base_params, set_flow_fields}
use lib_sp.Win.Os.{
  Os, World, M, get_param, put_param, put_comm, put_thread, invoke, answer, call_create_event,
  call_create_file, call_get_comm_config, call_get_comm_state, call_set_comm_config,
  call_purge_comm, call_set_comm_timeouts, call_set_comm_mask, call_begin_thread, call_close_handle,
  call_reset_event, call_wait_for_single_object, call_write_file, call_get_overlapped_result,
  call_rotating_logger, call_shutdown,
}

-- PURGE_TXABORT | PURGE_TXCLEAR | PURGE_RXCLEAR | PURGE_RXABORT
abbrev pub purge_all : ℕ
purge_all = 15

-- A BOOL or a handle that is not null.
abbrev pub succeeded : ℕ → Bool
succeeded r = not (r == 0)

-- `std::mutex::lock` in a method that is `noexcept`. What a second lock by the owner does is not
-- defined; where it throws, the exception leaves the method and the program ends.
unfoldable pub lock : M (Unit {0})
lock w =
    if w.mutex_recv
    then blocked w
    else returned tt
        (record w { param = record w.param { thread = record w.thread { mutex_recv = true } } })

unfoldable pub unlock : M (Unit {0})
unlock w =
    returned tt
      (record w { param = record w.param { thread = record w.thread { mutex_recv = false } } })

unfoldable pub is_opened : M Bool
is_opened w = returned (not (invalid_handle_value == w.comm_handle)) w

unfoldable pub get_recv_thread_is_running : M Bool
unfolding lock unlock
get_recv_thread_is_running = do lock; p ← get_param; unlock; pure p.is_running

unfoldable pub set_recv_thread_is_running : Bool → M (Unit {0})
unfolding lock unlock
set_recv_thread_is_running bvalue = do
  lock
  p ← get_param
  put_thread (record p.thread { is_running = bvalue })
  unlock

unfoldable pub set_read_notify : ℕ → M (Unit {0})
set_read_notify len = do
  p ← get_param
  put_comm (record p.comm_info { min_bytes_read_notify = if 0 == len then 1 else len })

abbrev pub set_dcb : Dcb → CommInfoWin → CommInfoWin
set_dcb dcb c = record c { cfg = record c.cfg { dcb = dcb } }

-- An exception leaves a function that is `noexcept`: the program ends.
abbrev terminate : {A : Type 0} → M A
terminate w = blocked w

module _ (os : Os) where
  -- The logger of `init`; the name and the file are the same for all objects.
  unfoldable pub start_log : M (Unit {0})
  start_log = do
    p ← get_param
    if not p.spp.is_to_log then pure tt else (do
      made ← invoke os call_rotating_logger
      if made == 0 then terminate else (do q ← get_param; put_param (record q { plog = true })))

  -- `precv_data` is kept where the call passes `nullptr`.
  unfoldable pub init : SpProp → Option ℕ → M ℤ
  unfolding start_log
  init spp precv_data = do
    let r = is_right (get_instance os_is_win) spp
    if not (eq_ℤ (pos 0) r) then pure r else (do
      p ← get_param
      put_param (record p {
        spp = spp;
        thread = record p.thread {
          precv_data = elim precv_data [ none ↦ p.precv_data | some r ↦ some r ];
        };
        is_init = true;
      })
      start_log
      pure r)

  -- The constructor, which makes the event of the monitor.
  unfoldable pub new : CommInfoWin → M (Unit {0})
  new c = do
    put_param (param_zero c)
    h ← invoke os call_create_event
    p ← get_param
    put_comm
        (record p.comm_info { over_lapped_monitor = record p.over_lapped_monitor { h_event = h } })

  unfoldable pub set_flow_ctl : ℕ → M (Unit {0})
  unfolding is_opened
  set_flow_ctl fc = do
    opened ← is_opened
    if not opened
        then pure tt
        else if fc == flow_ctl_none || (fc == flow_ctl_hardware || fc == flow_ctl_software)
        then (do
          p ← get_param
          put_comm (set_dcb (set_flow_fields fc p.cfg.dcb) p.comm_info)
          q ← get_param
          _ ← invoke os (call_set_comm_config q.comm_handle q.cfg)
          pure tt)
        else pure tt

  -- Without `use_cxx11_thread`; `_beginthreadex` returns 0 where it fails.
  unfoldable pub start_thread_monitor : M Bool
  start_thread_monitor = do
    h ← invoke os call_begin_thread
    p ← get_param
    put_thread (record p.thread { thread_handle = h })
    pure (not (invalid_handle_value == h))

  unfoldable pub stop_thread_monitor : M Bool
  unfolding set_recv_thread_is_running
  stop_thread_monitor = do
    p ← get_param
    _ ← invoke os (call_set_comm_mask p.thread_handle 0)
    set_recv_thread_is_running false
    if invalid_handle_value == p.thread_handle then pure true else (do
      _ ← invoke os (call_wait_for_single_object p.thread_handle 512)
      _ ← invoke os (call_close_handle p.thread_handle)
      q ← get_param
      put_thread (record q.thread { thread_handle = invalid_handle_value })
      pure true)

  -- The part of `close` that needs the device's handle.
  unfoldable pub release : M (Unit {0})
  release = do
    p ← get_param
    if invalid_handle_value == p.comm_handle then pure tt else (do
      _ ← invoke os (call_set_comm_mask p.comm_handle 0)
      _ ← invoke os (call_purge_comm p.comm_handle purge_all)
      _ ← invoke os (call_close_handle p.comm_handle)
      put_comm (record p.comm_info { comm_handle = invalid_handle_value }))

  -- `close`; nothing that it calls throws.
  unfoldable pub close_port : M ℤ
  unfolding is_opened stop_thread_monitor release
  close_port = do
    opened ← is_opened
    if not opened then pure (minus 1) else (do
      _ ← stop_thread_monitor
      release
      p ← get_param
      _ ← invoke os (call_reset_event p.over_lapped_monitor.h_event)
      pure (pos 0))

  -- The end of the destructor of an open port. What `shutdown` throws is caught.
  unfoldable pub stop_log : M (Unit {0})
  stop_log = do
    p ← get_param
    if p.spp.is_to_log && p.plog then (do _ ← invoke os call_shutdown; pure tt) else pure tt

  -- The destructor.
  unfoldable pub destroy : M (Unit {0})
  unfolding is_opened close_port stop_log
  destroy = do opened ← is_opened; if opened then (do _ ← close_port; stop_log) else pure tt
