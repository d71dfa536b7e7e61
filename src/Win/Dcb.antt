-- ===== src/Win/Dcb.antt =====
-- src/serial_port_win_base.cpp: how `open` and `set_flow_ctl` fill the device control block.
pub mod Laws
use lib_sp.Base.{ℕ, ◌%◌, ◌^◌, true, false, ◌==◌, if◌then◌else◌}
use lib_sp.Params.Enums.{flow_ctl_none, flow_ctl_hardware, flow_ctl_software}
use lib_sp.Params.Props.{SpProp}
use lib_sp.Win.State.{Dcb}

abbrev pub rts_control_disable : ℕ
rts_control_disable = 0

abbrev pub rts_control_handshake : ℕ
rts_control_handshake = 2

-- The assignments of `open`; three fields are bytes.
unfoldable pub set_base_params : SpProp → Dcb → Dcb
set_base_params spp dcb = record dcb {
  baud_rate = spp.baud_rate % 2 ^ 32;
  byte_size = spp.data_bits % 2 ^ 8;
  parity = spp.parity % 2 ^ 8;
  stop_bits = spp.stop_bits % 2 ^ 8;
  f_binary = true;
  f_in_x = false;
  f_out_x = false;
  f_abort_on_error = false;
  f_null = false;
}

-- The assignments of each case of `set_flow_ctl` that sets the configuration.
unfoldable pub set_flow_fields : ℕ → Dcb → Dcb
set_flow_fields fc dcb =
    if fc == flow_ctl_none
    then record dcb {
      f_outx_cts_flow = false;
      f_rts_control = rts_control_disable;
      f_in_x = false;
      f_out_x = false;
    }
    else if fc == flow_ctl_hardware
    then record dcb {
      f_outx_cts_flow = false;
      f_rts_control = rts_control_disable;
      f_in_x = true;
      f_out_x = true;
    }
    else if fc == flow_ctl_software
    then record dcb {
      f_outx_cts_flow = true;
      f_rts_control = rts_control_handshake;
      f_in_x = false;
      f_out_x = false;
    }
    else dcb
