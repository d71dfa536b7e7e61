-- ===== src/Tests/Streams.antt =====
-- Two ports on a line at concrete inputs.
use lib_sp.Base.{true, ℕ, List, [], ◌∷◌, ◌++◌, pos, some, codes, drop, ◌≡◌, refl}
use lib_sp.Effect.{Ends}
use lib_sp.Params.Props.{os_is_linux}
use lib_sp.Interface.{play}
use lib_sp.Interface.Contract.{View, fresh}
use lib_sp.Interface.History.{Follows}
use lib_sp.Linux.Os.{Os, World, Event}
use lib_sp.Linux.Contract.{linux_port, linux_port-Refines}
use lib_sp.Linux.Reader.{rounds, round, serve, read_locked}
use lib_sp.Linux.Stream.{taken, sent, consumed, text}
use lib_sp.Linux.Stream.Sending.{play-Sent}
use lib_sp.Linux.Stream.Receiving.{Serial, Received}
use lib_sp.Linux.Stream.Line.{Listens, end_to_end}
use lib_sp.Tests.Ports.{fixed_os, fixed_Serves, closed_port}
use lib_sp.Tests.Devices.{desk}
use lib_sp.Tests.Contracts.{session, session-Keeps}

-- The bytes of the line that follow those read before the newest call.
abbrev rest_of : List ℕ → List Event → List ℕ
rest_of line [] = line
rest_of line (e ∷ t) = drop (consumed t) line

-- A device that reads two bytes at a time from a line.
abbrev device : List ℕ → Os
device line = record fixed_os { pending = λ _. some (pos 2); bytes = rest_of line }

device-Serial : (line : List ℕ) → Serial (device line) line
unfolding consumed
device-Serial line t fd n r = refl

abbrev listening : World
listening = record closed_port {
  param = record closed_port.param {
    fd = pos 3;
    thread = record closed_port.thread { thread_recv_is_running = true };
  };
}

listening-Listens : Listens 1 listening
listening-Listens = (refl, refl, refl)

-- Two rounds hand on four bytes.
four_bytes :
    Ends
      (λ _ w. text w.delivered ≡ codes "abcd")
      (λ _. ⊥)
      (rounds (device (codes "abcdef")) 2 (pos 0) listening)
unfolding rounds round serve read_locked consumed text
four_bytes = refl

play-Sent_example :
    Ends
      (λ log w.
        ((v : View) × Follows os_is_linux session fresh log v
          × (linux_port-Refines fixed_os fixed_Serves desk).Shows v w)
        × (taken w.trace ≡ taken (linux_port fixed_os desk).create.trace ++ sent log))
      (λ _. ⊥)
      (play (linux_port fixed_os desk) session (linux_port fixed_os desk).create)
play-Sent_example =
    play-Sent fixed_os desk fixed_Serves session fresh (linux_port fixed_os desk).create
      (session-Keeps os_is_linux) (linux_port-Refines fixed_os fixed_Serves desk).shows_create

end_to_end_example :
    Ends
      (λ log w.
        Ends
          (λ _. Received (sent log))
          (Received (sent log))
          (rounds (device (taken w.trace)) 2 (pos 0) listening))
      (λ _. ⊥)
      (play (linux_port fixed_os desk) session (linux_port fixed_os desk).create)
end_to_end_example =
    end_to_end fixed_os desk fixed_Serves session (session-Keeps os_is_linux) device device-Serial 1
      listening listening-Listens 2 (pos 0)
