-- ===== src/Params/Props.antt =====
-- include/serial_port/serial_port_interface.h: `serial_port_prop_` and
-- `serial_port_available_`. Strings are lists of bytes.
use lib_sp.Base.{ℕ, Bool, false, List, []}
use lib_sp.Params.Enums.{
  baud_rate_9600, parity_even, data_bits_8, stop_1, flow_ctl_none, mode_async,
}

-- The operating system that the library is compiled for.
pub data Platform : Type 0 where
  os_is_win os_is_linux : Platform

pub record SpProp : Type 0 where
  pub name : List ℕ
  pub baud_rate : ℕ
  pub parity : ℕ
  pub data_bits : ℕ
  pub stop_bits : ℕ
  pub flow_ctl : ℕ
  pub op_mode : ℕ
  pub is_to_log : Bool

-- `serial_port_prop_::zero`, which the constructor calls.
abbrev pub sp_prop_zero : SpProp
sp_prop_zero = record {
  name = [];
  baud_rate = baud_rate_9600;
  parity = parity_even;
  data_bits = data_bits_8;
  stop_bits = stop_1;
  flow_ctl = flow_ctl_none;
  op_mode = mode_async;
  is_to_log = false;
}

-- `serial_port_available_`
pub record SpNameDesc : Type 0 where
  pub name : List ℕ
  pub description : List ℕ

-- `serial_port_available_::zero`
abbrev pub name_desc_zero : SpNameDesc
name_desc_zero = record { name = []; description = [] }
