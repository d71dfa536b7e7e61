-- ===== src/Win/State.antt =====
-- include/serial_port/serial_port_win_base.h: the state of a port object on Windows, and the `zero`
-- of each structure. A handle is the 64-bit number of the pointer.
use lib_sp.Base.{ℕ, ◌-◌, ◌^◌, Bool, false, Option, none}
use lib_sp.Params.Props.{SpProp, sp_prop_zero}

abbrev pub invalid_handle_value : ℕ
invalid_handle_value = 2 ^ 64 - 1

-- The fields of `DCB` that the code sets.
pub record Dcb : Type 0 where
  pub baud_rate : ℕ
  pub byte_size : ℕ
  pub parity : ℕ
  pub stop_bits : ℕ
  pub f_binary : Bool
  pub f_outx_cts_flow : Bool
  pub f_out_x : Bool
  pub f_in_x : Bool
  pub f_null : Bool
  pub f_rts_control : ℕ
  pub f_abort_on_error : Bool

pub record CommConfig : Type 0 where
  pub dw_size : ℕ
  pub dcb : Dcb

pub record CommTimeouts : Type 0 where
  pub read_interval_timeout : ℕ
  pub read_total_timeout_multiplier : ℕ
  pub read_total_timeout_constant : ℕ
  pub write_total_timeout_multiplier : ℕ
  pub write_total_timeout_constant : ℕ

pub record Overlapped : Type 0 where
  pub internal : ℕ
  pub internal_high : ℕ
  pub offset : ℕ
  pub offset_high : ℕ
  pub h_event : ℕ

-- `serial_port_thread_win_`. A receiver is named by a number, and `none` is `nullptr`; the mutex is
-- held or free.
pub record SpThreadWin : Type 0 where
  pub mutex_recv : Bool
  pub is_running : Bool
  pub thread_handle : ℕ
  pub precv_data : Option ℕ

-- `comm_info_win_`
pub record CommInfoWin : Type 0 where
  pub cfg : CommConfig
  pub time_out : CommTimeouts
  pub over_lapped_monitor : Overlapped
  pub over_lapped_write : Overlapped
  pub over_lapped_read : Overlapped
  pub comm_handle : ℕ
  pub min_bytes_read_notify : ℕ

-- `serial_port_param_win_`; `plog` tells whether there is a logger.
pub record SpParamWin : Type 0 where
  pub spp : SpProp
  pub comm_info : CommInfoWin
  pub open comm_info use *
  pub thread : SpThreadWin
  pub open thread use *
  pub is_init : Bool
  pub is_opened_flag : Bool
  pub plog : Bool

abbrev pub thread_zero : SpThreadWin
thread_zero = record {
  mutex_recv = false;
  is_running = false;
  thread_handle = invalid_handle_value;
  precv_data = none;
}

-- `comm_info_win_::zero`. The `memset` covers the size of a pointer only; what the fields before
-- the handles hold at first is the argument.
abbrev pub comm_info_zero : CommInfoWin → CommInfoWin
comm_info_zero c = record c {
  over_lapped_monitor = record c.over_lapped_monitor { h_event = invalid_handle_value };
  over_lapped_write = record c.over_lapped_write { h_event = invalid_handle_value };
  over_lapped_read = record c.over_lapped_read { h_event = invalid_handle_value };
  min_bytes_read_notify = 1;
  comm_handle = invalid_handle_value;
}

abbrev pub param_zero : CommInfoWin → SpParamWin
param_zero c = record {
  spp = sp_prop_zero;
  comm_info = comm_info_zero c;
  thread = thread_zero;
  is_init = false;
  is_opened_flag = false;
  plog = false;
}
