-- ===== src/Tests/WinPorts.antt =====
-- A port on Windows: a device that opens, and calls at concrete inputs.
use lib_sp.Base.{
  ◌≢◌, ◌≡◌, refl, ◌∷◌, [], ◌==◌, true, false, some, pos, to_signed, codes, if◌then◌else◌, arith,
}
use lib_sp.Effect.{Ends}
use lib_sp.Params.Props.{os_is_win, SpProp, sp_prop_zero}
use lib_sp.Params.Check.{get_instance, is_right, map_find, find}
use lib_sp.Win.State.{Dcb, CommInfoWin, Overlapped, param_zero, invalid_handle_value}
use lib_sp.Win.Os.{Os, World, call_create_file, call_begin_thread, call_read_file}
use lib_sp.Win.Port.Open.{open_port}
use lib_sp.Win.Port.Send.{send}
use lib_sp.Win.Port.Opening.{Answered, open_port-Answered}
use lib_sp.Win.Port.Sending.{KeepsMutex, send-sync-KeepsMutex}
use lib_sp.Win.Port.Codes.{went_out, finishing, failing, code_ambiguous}
use lib_sp.Win.Reader.{thread_recv_data_monitor}
use lib_sp.Win.Reader.Silence.{RefusesInvalid, thread_recv_data_monitor-Quiet}

-- Every call succeeds, but for a read from no device.
abbrev pub helpful : Os
helpful = record {
  result = λ t c. elim c [
    | call_create_file path access flags ↦ 100
    | call_begin_thread ↦ 200
    | call_read_file handle count ↦ (if handle == invalid_handle_value then 0 else 1)
    | _ ↦ 1
  ];
  last_error = λ _. 6;
  comm_config = λ _ cfg. cfg;
  comm_state = λ _ dcb. dcb;
  transferred = λ _. 3;
  bytes = λ _. 1 ∷ 2 ∷ 3 ∷ [];
  cb_in_que = λ _. 3;
  event_mask = λ _. some 1;
  relock_throws = λ _. false;
}

abbrev blank : Dcb
blank = record {
  baud_rate = 0;
  byte_size = 0;
  parity = 0;
  stop_bits = 0;
  f_binary = false;
  f_outx_cts_flow = false;
  f_out_x = false;
  f_in_x = false;
  f_null = false;
  f_rts_control = 0;
  f_abort_on_error = false;
}

abbrev no_overlap : Overlapped
no_overlap = record { internal = 0; internal_high = 0; offset = 0; offset_high = 0; h_event = 0 }

abbrev pub blank_comm : CommInfoWin
blank_comm = record {
  cfg = record { dw_size = 0; dcb = blank };
  time_out = record {
    read_interval_timeout = 0;
    read_total_timeout_multiplier = 0;
    read_total_timeout_constant = 0;
    write_total_timeout_multiplier = 0;
    write_total_timeout_constant = 0;
  };
  over_lapped_monitor = no_overlap;
  over_lapped_write = no_overlap;
  over_lapped_read = no_overlap;
  comm_handle = 0;
  min_bytes_read_notify = 1;
}

-- COM3 in the synchronous mode, with hardware flow control.
abbrev com3 : SpProp
com3 = record sp_prop_zero { name = codes "COM3"; op_mode = 1; flow_ctl = 1 }

abbrev pub idle_port : World
idle_port = record {
  param = record (param_zero blank_comm) { spp = com3; is_init = true };
  trace = [];
  delivered = [];
}

-- The same after `open`.
abbrev open_com3 : World
open_com3 = record idle_port {
  param = record idle_port.param { comm_info = record idle_port.comm_info { comm_handle = 100 } };
}

abbrev open_async : World
open_async = record open_com3 {
  param = record open_com3.param { spp = record com3 { op_mode = 0 } };
}

com3_opened : 100 ≢ invalid_handle_value
com3_opened e = omega arith

open_port-Answered_example :
    Ends (Answered helpful idle_port) (λ _. ⊥) (open_port helpful idle_port)
open_port-Answered_example = open_port-Answered helpful idle_port refl refl

send-sync-KeepsMutex_example :
    Ends
      (λ r u.
        KeepsMutex helpful (7 ∷ []) 1 open_com3 u
        × (helpful.relock_throws u.trace ≡ true)
        × (r ≡ to_signed 32 (helpful.last_error u.trace)))
      (λ u. KeepsMutex helpful (7 ∷ []) 1 open_com3 u × (helpful.relock_throws u.trace ≡ false))
      (send helpful (some (7 ∷ [])) 1 open_com3)
send-sync-KeepsMutex_example =
    send-sync-KeepsMutex helpful (7 ∷ []) 1 open_com3 (λ e. cc) com3_opened refl (λ e. cc)

code_ambiguous_example :
    Ends
      (λ c w'. (c ≡ pos 1) × (went_out w'.trace ≡ true))
      (λ _. ⊥)
      (send (finishing helpful) (some (7 ∷ [])) 1 open_async)
    × Ends
        (λ c w'. (c ≡ pos 1) × (went_out w'.trace ≡ false))
        (λ _. ⊥)
        (send (failing 1 helpful) (some (7 ∷ [])) 1 open_async)
code_ambiguous_example =
    code_ambiguous helpful (7 ∷ []) 1 open_async (λ e. cc) (omega arith) com3_opened refl refl

com3_passes : is_right (get_instance os_is_win) com3 ≡ pos 0
unfolding is_right map_find find get_instance
com3_passes = refl

helpful-RefusesInvalid : RefusesInvalid helpful
helpful-RefusesInvalid t count = refl

thread_recv_data_monitor-Quiet_example :
    Ends
      (λ _ u. u.delivered ≡ [])
      (λ u. u.delivered ≡ [])
      (thread_recv_data_monitor helpful 3 open_async)
thread_recv_data_monitor-Quiet_example =
    thread_recv_data_monitor-Quiet helpful helpful-RefusesInvalid 3 open_async
