-- ===== src/Linux/Stream/Line.antt =====
-- Two Linux ports on one line: what one sends is what the receiver of the other gets.
use lib_sp.Base.{arith, ℕ, List, [], ℤ, some, ◌≡◌, subst}
use lib_sp.Effect.{Ends, Ends-weaken}
use lib_sp.Params.Props.{os_is_linux}
use lib_sp.Interface.{Session, play}
use lib_sp.Interface.Contract.{View, fresh}
use lib_sp.Interface.History.{Keeps, Follows}
use lib_sp.Linux.Os.{Os, World}
use lib_sp.Linux.Devices.{DeviceFs}
use lib_sp.Linux.Port.{new}
use lib_sp.Linux.Port.Opening.{Serves}
use lib_sp.Linux.Contract.{linux_port, linux_port-Refines}
use lib_sp.Linux.Reader.{rounds}
use lib_sp.Linux.Reader.Delivery.{Delivers, chunks}
use lib_sp.Linux.Stream.{taken, sent}
use lib_sp.Linux.Stream.Sending.{play-Sent}
use lib_sp.Linux.Stream.Receiving.{Serial, Received, rounds-Received}

-- A receiver `q` on an object that has made no call yet.
abbrev pub Listens : ℕ → World → Type 0
Listens q v = (v.precv_data ≡ some q) × (v.trace ≡ []) × (v.delivered ≡ [])

Listens-Delivers : (os : Os) (q : ℕ) (v : World) → Listens q v → Delivers os q v
unfolding chunks
Listens-Delivers os q v l = (l.0, ground (arith, l.1, l.2))

-- A new port is used by a session of permitted calls, and another port reads the bytes that its
-- device has taken, in order. The system follows POSIX, can set up each device that opens, and can
-- always create a thread. The session runs to its end, and after any number of rounds of the
-- other port's loop its receiver was handed the first of exactly those bytes that the codes of the
-- session count as sent, as many as were read.
pub end_to_end :
    (os : Os) (fs : DeviceFs) (serves : Serves os) (s : Session)
    → Keeps os_is_linux s fresh
    → (device : List ℕ → Os) → ((line : List ℕ) → Serial (device line) line)
    → (q : ℕ) (v : World) → Listens q v
    → (n : ℕ) (has : ℤ)
    → Ends
        (λ log w.
          Ends
            (λ _. Received (sent log))
            (Received (sent log))
            (rounds (device (taken w.trace)) n has v))
        (λ _. ⊥)
        (play (linux_port os fs) s (linux_port os fs).create)
unfolding new taken
end_to_end os fs serves s keeps device serial q v listens n has =
    let r = linux_port-Refines os serves fs in
    Ends-weaken
      (λ log w'.
        ((v' : View) × Follows os_is_linux s fresh log v' × r.Shows v' w')
        × (taken w'.trace ≡ sent log))
      _ (play (linux_port os fs) s new) (play-Sent os fs serves s fresh new keeps r.shows_create)
      (λ log w h.
        subst
          (λ line.
            Ends (λ _. Received line) (Received line) (rounds (device (taken w.trace)) n has v))
          h.1
          (rounds-Received (device (taken w.trace)) (taken w.trace) (serial (taken w.trace)) q n has
            v (Listens-Delivers (device (taken w.trace)) q v listens)))
