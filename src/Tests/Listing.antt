-- ===== src/Tests/Listing.antt =====
-- The traced Windows listing and the logger at concrete inputs.
use lib_sp.Base.{
  ◌⊎◌, remove_first, Bool, true, false, none, some, List, [], ◌∷◌, ltb, ◌≡◌, refl, codes, arith,
  if◌then◌else◌,
}
use lib_sp.Effect.{Ends, run_all}
use lib_sp.Params.Props.{SpProp, SpNameDesc}
use lib_sp.Params.Check.{get_instance, is_right, map_find, find}
use lib_sp.Win.Devices
use lib_sp.Win.Devices.{SetupApi}
use lib_sp.Win.Devices.Listing.{
  enum_interfaces, get_class_devs, new_detail, open_dev_reg_key, System, Outcome, ended,
  get_available_serial_port, try_block, rounds, round, read_port_name,
}
use lib_sp.Win.Devices.Listing.Resources.{
  held, EndsAt, Released, get_available_serial_port-Released, buffer, info_list,
}
use lib_sp.Win.Devices.Listing.Names.{system_of, value, get_available_serial_port-value}
use lib_sp.Win.Os.{Os, call_create_file, call_rotating_logger}
use lib_sp.Win.Port.Closing.{Opened}
use lib_sp.Win.Port.{
  destroy, init, start_log, is_opened, set_flow_ctl, close_port, stop_thread_monitor, release,
  set_recv_thread_is_running, lock, unlock, start_thread_monitor,
}
use lib_sp.Win.Port.Open.{
  open_port, prepare, open_device, set_up, configure_device, fill_dcb, watch, finish,
}
use lib_sp.Win.Port.History.{op_init, op_open, op_close, run, perform}
use lib_sp.Win.Port.Logging.{RefusesTaken, registered, NoSecondLog, Logs, run-NoSecondLog}
use lib_sp.Tests.WinPorts.{helpful, idle_port}
use lib_sp.Tests.Contracts.{two_devices}

-- Two devices, where a copy may throw.
abbrev two_found : Bool → System
two_found throws = record {
  result = λ t c. elim c [
    | get_class_devs ↦ 11
    | new_detail ↦ 12
    | enum_interfaces h index ↦ (if ltb index 2 then 1 else 0)
    | open_dev_reg_key h index ↦ 13
    | _ ↦ 1
  ];
  stored = λ _. codes "COM3";
  throws = λ _. throws;
}

two_found-EndsAt : (throws : Bool) → EndsAt (two_found throws) 2
two_found-EndsAt throws t h = refl

held_none : held [] ≡ some []
unfolding held
held_none = refl

get_available_serial_port-Released_example :
    Released (two_found false) [] (get_available_serial_port (two_found false) 3 [])
get_available_serial_port-Released_example =
    get_available_serial_port-Released (two_found false) 2 3 [] [] (two_found-EndsAt false)
      (omega arith) held_none

get_available_serial_port-value_example :
    value (get_available_serial_port (system_of two_devices true) 5 [])
    ≡ Devices.get_available_serial_port two_devices true 5
get_available_serial_port-value_example = get_available_serial_port-value two_devices true 5 []

-- spdlog, beside calls that succeed.
abbrev logging : Os
logging = record helpful {
  result = λ t c. elim c [
    | call_rotating_logger ↦ (if registered t then 0 else 1)
    | call_create_file path access flags ↦ 100
    | _ ↦ 1
  ];
}

logging-RefusesTaken : RefusesTaken logging
logging-RefusesTaken t h = ground (arith, h)

abbrev with_log : SpProp
with_log = record idle_port.spp { is_to_log = true }

with_log-Logs : Logs with_log
unfolding is_right map_find find get_instance
with_log-Logs = (refl, refl)

run-NoSecondLog_example :
    Ends
      (λ _ u.
        NoSecondLog logging with_log none idle_port.param u
        × (Opened u
            ⊎ Ends
                (λ _. NoSecondLog logging with_log none idle_port.param)
                (λ _. ⊥)
                (destroy logging u)))
      (λ _. Unit {0})
      (run logging (op_init with_log none ∷ op_open ∷ op_close ∷ []) idle_port)
run-NoSecondLog_example =
    run-NoSecondLog logging logging-RefusesTaken (op_open ∷ op_close ∷ []) with_log with_log none
      none idle_port.param idle_port with_log-Logs with_log-Logs

-- The history of the example returns, with the name taken.
history_returns :
    Ends
      (λ _ u. registered u.trace ≡ true)
      (λ _. ⊥)
      (run logging (op_init with_log none ∷ op_open ∷ op_close ∷ []) idle_port)
unfolding run_all perform init start_log is_right map_find find get_instance open_port prepare
    is_opened open_device set_up configure_device fill_dcb set_flow_ctl watch start_thread_monitor
    finish close_port stop_thread_monitor release registered set_recv_thread_is_running lock unlock
history_returns = refl

abbrev LeftBehind : Outcome (List SpNameDesc) → Type 0
LeftBehind (ended l u) = (l ≡ []) × (held u ≡ some (buffer 12 ∷ info_list 11 ∷ []))
LeftBehind _ = ⊥

-- A copy that throws leaves the list of devices and the buffer behind.
left_behind : LeftBehind (get_available_serial_port (two_found true) 3 [])
unfolding get_available_serial_port try_block rounds round read_port_name held remove_first
left_behind = (refl, refl)
