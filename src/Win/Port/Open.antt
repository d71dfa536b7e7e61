-- ===== src/Win/Port/Open.antt =====
-- src/serial_port_win_base.cpp: `open`. A string is taken as the bytes that `CreateFile` gets.
use lib_sp.Base.{
  ℕ, ◌-◌, ◌^◌, true, false, not, List, ◌++◌, ℤ, pos, minus, eq_ℤ, to_signed, codes, ◌==◌,
  if◌then◌else◌,
}
use lib_sp.Effect.{pure, ◌>>=◌, ◌>>◌}
use lib_sp.Params.Enums.{mode_async}
use lib_sp.Win.State.{invalid_handle_value, CommTimeouts}
use lib_sp.Win.Dcb.{set_base_params}
use lib_sp.Win.Os.{
  Os, M, get_param, put_param, put_comm, put_thread, invoke, answer, call_create_file,
  call_get_comm_config, call_get_comm_state, call_set_comm_config, call_purge_comm,
  call_set_comm_timeouts, call_set_comm_mask,
}
use lib_sp.Win.Port.{
  succeeded, is_opened, close_port, purge_all, set_dcb, set_flow_ctl, start_thread_monitor,
}

abbrev pub error_file_not_found : ℕ
error_file_not_found = 2

abbrev pub error_access_denied : ℕ
error_access_denied = 5

abbrev pub maxdword : ℕ
maxdword = 2 ^ 32 - 1

-- EV_TXEMPTY | EV_RXCHAR | EV_DSR
abbrev pub ev_mask : ℕ
ev_mask = 0x15

abbrev pub file_flag_overlapped : ℕ
file_flag_overlapped = 0x40000000

-- GENERIC_READ | GENERIC_WRITE
abbrev pub generic_read_write : ℕ
generic_read_write = 0xC0000000

abbrev pub sizeof_comm_config : ℕ
sizeof_comm_config = 52

abbrev pub name_prefix : List ℕ
name_prefix = codes "\\\\.\\"

-- The timeouts that `open` sets, with those of writing.
abbrev pub time_outs : ℕ → ℕ → CommTimeouts
time_outs multiplier constant = record {
  read_interval_timeout = maxdword;
  read_total_timeout_multiplier = 0;
  read_total_timeout_constant = 0;
  write_total_timeout_multiplier = multiplier;
  write_total_timeout_constant = constant;
}

abbrev pub flags_attributes : ℕ → ℕ
flags_attributes op_mode = if mode_async == op_mode then file_flag_overlapped else 0

-- What `open` does to the object before it looks at the device.
unfoldable pub prepare : M (Unit {0})
prepare = do
  p ← get_param
  put_param (record p {
    spp = record p.spp { name = name_prefix ++ p.spp.name };
    comm_info = record p.comm_info { cfg = record p.cfg { dw_size = sizeof_comm_config } };
  })

module _ (os : Os) where
  -- The codes of `open` where `CreateFile` fails.
  unfoldable pub refused : M ℤ
  refused = do
    e ← answer os.last_error
    pure (
        if e == error_file_not_found
        then minus 2
        else if e == error_access_denied
        then minus 3
        else minus 4)

  abbrev pub put_time_outs : CommTimeouts → M (Unit {0})
  put_time_outs t = do
    p ← get_param
    put_comm (record p.comm_info { time_out = t })
    _ ← invoke os (call_set_comm_timeouts p.comm_handle t)
    pure tt

  -- The end of `open` in the asynchronous mode: the mask of the events, and the monitor.
  unfoldable pub watch : M ℤ
  unfolding start_thread_monitor
  watch = do
    put_time_outs (time_outs 0 0)
    p ← get_param
    masked ← invoke os (call_set_comm_mask p.comm_handle ev_mask)
    if not (succeeded masked) then pure (minus 3) else (do
      put_thread (record p.thread { is_running = true })
      started ← start_thread_monitor os
      if started then pure (pos 0) else (do
        q ← get_param
        put_thread (record q.thread { is_running = false })
        e ← answer os.last_error
        pure (to_signed 32 e)))

  -- The parameters of a device that `CreateFile` has opened, the flow control aside.
  unfoldable pub fill_dcb : M (Unit {0})
  fill_dcb = do
    p ← get_param
    _ ← invoke os (call_get_comm_config p.comm_handle)
    cfg ← answer os.comm_config
    put_comm (record p.comm_info { cfg = cfg p.cfg })
    _ ← invoke os (call_get_comm_state p.comm_handle)
    state ← answer os.comm_state
    q ← get_param
    put_comm (set_dcb (set_base_params q.spp (state q.cfg.dcb)) q.comm_info)

  unfoldable pub configure_device : M (Unit {0})
  unfolding fill_dcb set_flow_ctl
  configure_device = do fill_dcb; q ← get_param; set_flow_ctl os q.spp.flow_ctl

  unfoldable pub set_up : M ℤ
  unfolding configure_device watch
  set_up = do
    configure_device
    p ← get_param
    accepted ← invoke os (call_set_comm_config p.comm_handle p.cfg)
    if not (succeeded accepted) then pure (minus 6) else (do
      _ ← invoke os (call_purge_comm p.comm_handle purge_all)
      if mode_async == p.spp.op_mode
          then watch
          else (do put_time_outs (time_outs 100 500); pure (pos 0)))

  unfoldable pub open_device : ℕ → M ℤ
  unfolding refused set_up
  open_device flags = do
    p ← get_param
    h ← invoke os (call_create_file p.spp.name generic_read_write flags)
    put_comm (record p.comm_info { comm_handle = h })
    if invalid_handle_value == h then refused else set_up

  -- The port is closed if an error occurred.
  unfoldable pub finish : ℤ → M ℤ
  finish r = if eq_ℤ (pos 0) r then pure r else (do _ ← close_port os; pure r)

  -- `open`
  unfoldable pub open_port : M ℤ
  unfolding is_opened finish open_device prepare
  open_port = do
    p ← get_param
    if not p.is_init then pure (minus 1) else (do
      prepare
      opened ← is_opened
      r ← (if not opened then open_device (flags_attributes p.spp.op_mode) else pure (minus 5))
      finish r)
