-- ===== src/Tests/Contracts.antt =====
-- The contract of the interface, its clients and the Windows listing at concrete inputs.
use lib_sp.Base.{
  sym, eq_ℤ→eq, inl, inr, Bool-cases, eq_ℤ, ◌↔◌, ◌<◌, Lacks, pos, ◌==◌, true, false, none, some,
  List, [], ◌∷◌, ltb, ◌≡◌, ◌∙◌, refl, codes, if◌then◌else◌, arith,
}
use lib_sp.Effect.{Ends}
use lib_sp.Params.Props.{Platform, os_is_linux, os_is_win}
use lib_sp.Interface.{SerialPort, op_init, op_open, op_close, op_send, Session, ends, calls, play}
use lib_sp.Interface.Contract.{View, fresh, ready, opened, Refines, names_receiver}
use lib_sp.Interface.History.{Follows, Keeps}
use lib_sp.Linux.Contract.{linux_port, linux_port-Refines}
use lib_sp.Win.Contract.{win_port, Shows}
use lib_sp.Win.Port.{new}
use lib_sp.Win.Stream.{Wrote, pieces, play-Wrote}
use lib_sp.Win.Port.Logging.{MakesLoggers, registered}
use lib_sp.Win.Contract.Refinement.{win_port-Refines}
use lib_sp.Win.Devices.{SetupApi, read_device, read_devices, get_available_serial_port}
use lib_sp.Win.Devices.Laws.{UpToRefusal, get_available_serial_port-ends}
use lib_sp.Win.Port.History.{run}
use lib_sp.Win.Port.Handles.{Owns, Creates, run-OwnsHandles, open_handles}
use lib_sp.Example.{main}
use lib_sp.Example.Laws.{Done, main-Done}
use lib_sp.Example.Receiving.{on_recv_data, buf_read, on_recv_data_iff}
use lib_sp.Tests.Checks.{plain, plain_passes}
use lib_sp.Tests.Ports.{fixed_os, fixed_Serves}
use lib_sp.Tests.WinPorts.{helpful, idle_port, blank_comm}
use lib_sp.Tests.Devices.{desk}

-- `open` if `init` has succeeded, and `send` if `open` has.
abbrev pub sending : Session
sending = calls (op_send (some (codes "abc")) 3) (λ _. calls op_close (λ _. ends))

abbrev pub opening : Session
opening = calls op_open (λ c. if eq_ℤ (pos 0) c then sending else ends)

abbrev pub session : Session
session = calls (op_init plain (some 1)) (λ c. if eq_ℤ (pos 0) c then opening else ends)

sending-Keeps : (os : Platform) (v : View) → v ≡ opened → Keeps os sending v
sending-Keeps os v e = ((λ _. e), λ c u a. (tt, λ d x b. tt))

opening-Keeps : (os : Platform) (v : View) → v ≡ ready → Keeps os opening v
opening-Keeps os v e = (
  e,
  λ c u a. elim (Bool-cases (eq_ℤ (pos 0) c)) [
    | inl z ↦ rw z (
        sending-Keeps os u
          (elim a [ inl (_, o) ↦ o | inr (nz, _) ↦ elim (nz (sym (eq_ℤ→eq (pos 0) c z))) [ ] ]))
    | inr nz ↦ rw nz tt
  ],
)

pub session-Keeps : (os : Platform) → Keeps os session fresh
session-Keeps os = (
  (refl, inl refl, names_receiver os 1 fresh),
  λ c u a. rw (a.0, plain_passes os) (opening-Keeps os u (a.1 ∙ rw (a.0, plain_passes os) refl)),
)

linux_port-Refines_example : Refines os_is_linux (linux_port fixed_os desk)
linux_port-Refines_example = linux_port-Refines fixed_os fixed_Serves desk

abbrev pub com_port : SerialPort
com_port = win_port helpful idle_port blank_comm []

makes_loggers : MakesLoggers helpful
makes_loggers t h = λ e. omega arith

idle_port_free : registered idle_port.trace ≡ false
unfolding registered
idle_port_free = refl

win_port-Refines_example : Refines os_is_win com_port
win_port-Refines_example =
    win_port-Refines helpful makes_loggers idle_port blank_comm [] idle_port_free

play-Wrote_example :
    Ends
      (λ log u.
        ((v' : View) × Follows os_is_win session fresh log v' × Shows v' u)
        × Wrote (pieces log) com_port.create u)
      (λ _. ⊥)
      (play com_port session com_port.create)
unfolding new registered
play-Wrote_example =
    play-Wrote helpful idle_port blank_comm [] session fresh com_port.create makes_loggers
      (session-Keeps os_is_win) (refl, refl, refl)

main-Done_example :
    Ends
      (λ _.
        Done os_is_win com_port
          (win_port-Refines helpful makes_loggers idle_port blank_comm [] idle_port_free))
      (λ _. ⊥)
      (main com_port false os_is_win true true (pos 3) (pos 1))
main-Done_example =
    main-Done os_is_win com_port
      (win_port-Refines helpful makes_loggers idle_port blank_comm [] idle_port_free) false
      os_is_win true true (pos 3) (pos 1)

helpful-Creates : Creates helpful
helpful-Creates t = ((λ e. omega arith), λ e. omega arith)

run-OwnsHandles_example :
    Ends (λ _. Owns) Owns (run helpful (op_open ∷ op_close ∷ op_open ∷ []) idle_port)
unfolding open_handles
run-OwnsHandles_example =
    run-OwnsHandles helpful helpful-Creates (op_open ∷ op_close ∷ op_open ∷ []) idle_port
      (record { owned = refl; no_thread = λ e. refl })

-- Two devices, the second without a name that can be read.
abbrev pub two_devices : SetupApi
two_devices = record {
  class_devs = true;
  has_interface = λ n. ltb n 2;
  has_detail = λ _. true;
  friendly_name = λ n. if n == 0 then some (codes "USB") else none;
  port_name = λ _. some (codes "COM3");
}

get_available_serial_port-ends_example :
    (ds : List _) × (get_available_serial_port two_devices true 5 ≡ some ds)
    × UpToRefusal two_devices 0 ds
get_available_serial_port-ends_example =
    get_available_serial_port-ends two_devices 2 5 refl refl (omega arith)

-- The second device is not listed.
one_listed :
    get_available_serial_port two_devices true 5
    ≡ some (record { name = codes "COM3"; description = codes "USB" } ∷ [])
unfolding get_available_serial_port read_devices read_device
one_listed = refl

on_recv_data_iff_example :
    (on_recv_data (buf_read (codes "abc")) 3 ≡ some (3, codes "abc"))
    ↔ (Lacks 0 (codes "abc") × (3 < 1024))
on_recv_data_iff_example = on_recv_data_iff (codes "abc")
