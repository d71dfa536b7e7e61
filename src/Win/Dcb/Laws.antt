-- ===== src/Win/Dcb/Laws.antt =====
-- Which handshake a port on Windows uses, and its other settings.
use lib_sp.Base.{◌≤◌, Bool, ◌&&◌, ◌≡◌, ◌==◌, arith, pos}
use lib_sp.Params.Enums.{flow_ctl_hardware, flow_ctl_software}
use lib_sp.Params.Props.{SpProp, os_is_win}
use lib_sp.Params.Check.{is_right, get_instance}
use lib_sp.Params.Check.Verdicts.{IsBaud, accepted_iff}
use lib_sp.Win.State.{Dcb}
use lib_sp.Win.Dcb.{set_base_params, set_flow_fields, rts_control_handshake}

-- The control block that `open` hands to `SetCommConfig`, from the one that the device had.
abbrev pub device_dcb : SpProp → Dcb → Dcb
device_dcb spp dcb = set_flow_fields spp.flow_ctl (set_base_params spp dcb)

-- RTS and CTS are used.
abbrev pub hardware_handshake : Dcb → Bool
hardware_handshake d = d.f_outx_cts_flow && d.f_rts_control == rts_control_handshake

-- XON and XOFF are used.
abbrev pub software_handshake : Dcb → Bool
software_handshake d = d.f_in_x && d.f_out_x

-- For the three known kinds of flow control the two handshakes are swapped: the port uses RTS and
-- CTS exactly if software flow control was asked for, and XON and XOFF exactly if hardware flow
-- control was.
flow_swapped :
    (spp : SpProp) (dcb : Dcb)
    → spp.flow_ctl ≤ 2
    → (hardware_handshake (device_dcb spp dcb) ≡ (spp.flow_ctl == flow_ctl_software))
      × (software_handshake (device_dcb spp dcb) ≡ (spp.flow_ctl == flow_ctl_hardware))
unfolding set_flow_fields set_base_params
flow_swapped spp dcb h = ground arith

-- For a property set that the check accepts, with a rate that the interface names, the port gets
-- the rate, the data bits, the parity and the stop bits of the set: no field is cut to a byte.
line_settings :
    (spp : SpProp) (dcb : Dcb)
    → is_right (get_instance os_is_win) spp ≡ pos 0
    → IsBaud spp.baud_rate
    → ((device_dcb spp dcb).baud_rate ≡ spp.baud_rate)
      × ((device_dcb spp dcb).byte_size ≡ spp.data_bits)
      × ((device_dcb spp dcb).parity ≡ spp.parity)
      × ((device_dcb spp dcb).stop_bits ≡ spp.stop_bits)
unfolding set_flow_fields set_base_params
line_settings spp dcb right baud = ground (arith, (accepted_iff os_is_win spp).0 right)
