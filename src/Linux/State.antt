-- ===== src/Linux/State.antt =====
-- include/serial_port/serial_port_linux_base.h and include/serial_port/constdef.h: the state of a
-- port object, and the `zero` of each structure.
use lib_sp.Base.{ℕ, ◌-◌, ◌^◌, Bool, false, Option, none, ℤ, minus}
use lib_sp.Params.Props.{SpProp, sp_prop_zero}

abbrev pub len_buf_1024 : ℕ
len_buf_1024 = 1024

abbrev pub invalid_value : ℤ
invalid_value = minus 1

-- A `pthread_t` is an unsigned 64-bit number, so `invalid_value` is stored as this.
abbrev pub invalid_thread : ℕ
invalid_thread = 2 ^ 64 - 1

-- `serial_port_param_linux_thread_`. A receiver is named by a number, and `none` is `nullptr`; the
-- mutex is held or free.
pub record SpLinuxThread : Type 0 where
  pub precv_data : Option ℕ
  pub thread_recv_is_running : Bool
  pub thread_recv : ℕ
  pub mutex_recv : Bool

abbrev pub thread_zero : SpLinuxThread
thread_zero = record {
  precv_data = none;
  thread_recv_is_running = false;
  thread_recv = invalid_thread;
  mutex_recv = false;
}

-- `serial_port_param_others_`
pub record SpLinuxOthers : Type 0 where
  pub min_byte_read_notify : ℕ

abbrev pub others_zero : SpLinuxOthers
others_zero = record { min_byte_read_notify = 1 }

-- `serial_port_param_linux_`
pub record SpParamLinux : Type 0 where
  pub spp : SpProp
  pub thread : SpLinuxThread
  pub open thread use *
  pub fd : ℤ
  pub others : SpLinuxOthers
  pub open others use *

abbrev pub param_zero : SpParamLinux
param_zero = record {
  spp = sp_prop_zero;
  thread = thread_zero;
  fd = invalid_value;
  others = others_zero;
}
