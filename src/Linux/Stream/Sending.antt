-- ===== src/Linux/Stream/Sending.antt =====
-- The codes of a history tell exactly which bytes the device has taken.
use mathlib.Core.List.{append_assoc, append-nil}
use lib_sp.Base.{ℕ, List, [], ◌++◌, none, some, Option, take, ◌≡◌, sym, ap, ◌∙◌, arith}
use lib_sp.Effect.{Outcome, Ends, Ends-bind, Ends-mono, Ends-and}
use lib_sp.Params.Props.{os_is_linux, SpProp}
use lib_sp.Linux.Reader.{to_length}
use lib_sp.Interface.{
  Op, op_init, op_open, op_close, op_set_read_notify, op_send, call, Session, ends, calls, play,
}
use lib_sp.Interface.Contract.{View}
use lib_sp.Interface.History.{Follows, Keeps, play-Follows}
use lib_sp.Linux.Os.{Os, World}
use lib_sp.Linux.Devices.{DeviceFs}
use lib_sp.Linux.Port.{init, open_port, close_port, set_read_notify, send}
use lib_sp.Linux.Port.Opening.{Serves}
use lib_sp.Linux.Contract.{linux_port, linux_port-Refines}
use lib_sp.Linux.Stream.{taken, counted, sent}

-- The device has taken the bytes `b` since the state `w`.
abbrev pub Took : List ℕ → World → World → Type 0
Took b w w' = taken w'.trace ≡ taken w.trace ++ b

-- The device has taken nothing.
abbrev Idle : World → World → Type 0
Idle w w' = taken w'.trace ≡ taken w.trace

Idle-Took : (w w' : World) → Idle w w' → Took [] w w'
Idle-Took w w' h = h ∙ sym (append-nil (taken w.trace))

Took-append : (a b : List ℕ) (u v w : World) → Took a u v → Took b v w → Took (a ++ b) u w
Took-append a b u v w h k = k ∙ ap (λ t. t ++ b) h ∙ append_assoc (taken u.trace) a b

init-Idle :
    (spp : SpProp) (r : Option ℕ) (w : World) → Ends (λ _. Idle w) (λ _. Unit {0}) (init spp r w)
unfolding init
init-Idle spp none w = ground arith
init-Idle spp (some r) w = ground arith

module _ (os : Os) where
  open_port-Idle : (w : World) → Ends (λ _. Idle w) (λ _. Unit {0}) (open_port os w)
  unfolding open_port taken
  open_port-Idle w = ground arith

  close_port-Idle : (w : World) → Ends (λ _. Idle w) (λ _. Unit {0}) (close_port os w)
  unfolding close_port taken
  close_port-Idle w = ground arith

  send-Took :
      (d : List ℕ) (n : ℕ) (w : World)
      → Ends (λ c. Took (take (to_length c) (take n d)) w) (λ _. Unit {0}) (send os (some d) n w)
  unfolding send taken
  send-Took d n w = ground (arith, append-nil (taken w.trace))

module _ (os : Os) (fs : DeviceFs) where
  Idle-call :
      {A : Type 0} (m : Outcome World A) (w : World)
      → Ends (λ _. Idle w) (λ _. Unit {0}) m
      → Ends (λ _. Took [] w) (λ _. Unit {0}) m
  Idle-call m w h = Ends-mono m h (λ _ w' k. Idle-Took w w' k) (λ _ u. u)

  call-Took :
      (o : Op) (w : World)
      → Ends (λ c. Took (counted o c) w) (λ _. Unit {0}) (call (linux_port os fs) o w)
  unfolding call set_read_notify send
  call-Took (op_init spp r) w = Idle-call (init spp r w) w (init-Idle spp r w)
  call-Took op_open w = Idle-call (open_port os w) w (open_port-Idle os w)
  call-Took op_close w = Idle-call (close_port os w) w (close_port-Idle os w)
  call-Took (op_set_read_notify n) w = sym (append-nil _)
  call-Took (op_send none n) w = sym (append-nil _)
  call-Took (op_send (some d) n) w = send-Took os d n w

  play-Took :
      (s : Session) (w : World)
      → Ends (λ log. Took (sent log) w) (λ _. Unit {0}) (play (linux_port os fs) s w)
  unfolding play sent
  play-Took ends w = sym (append-nil _)
  play-Took (calls o next) w =
      Ends-bind (λ c. Took (counted o c) w) (λ log. Took (sent log) w) (λ _. Unit)
        (call (linux_port os fs) o) _ w (call-Took o w)
        (λ c w' h.
          Ends-bind (λ log. Took (sent log) w') (λ log. Took (sent log) w) (λ _. Unit)
            (play (linux_port os fs) (next c)) _ w' (play-Took (next c) w')
            (λ log w'' k. Took-append (counted o c) (sent log) w w' w'' h k))

-- On a system that follows POSIX, on which each device that opens can be set up and a thread can
-- always be created, a session of permitted calls runs to its end, with codes that the contract
-- allows, and these codes tell exactly which bytes the device has taken, and in which order: of each
-- `send` as many of its first bytes as the code says, and none of one that failed.
pub play-Sent :
    (os : Os) (fs : DeviceFs) (serves : Serves os) (s : Session) (v : View) (w : World)
    → Keeps os_is_linux s v
    → (linux_port-Refines os serves fs).Shows v w
    → Ends
        (λ log w'.
          ((v' : View) × Follows os_is_linux s v log v'
            × (linux_port-Refines os serves fs).Shows v' w')
          × (taken w'.trace ≡ taken w.trace ++ sent log))
        (λ _. ⊥)
        (play (linux_port os fs) s w)
play-Sent os fs serves s v w keeps shows =
    let r = linux_port-Refines os serves fs in
    Ends-mono (play (linux_port os fs) s w)
      (Ends-and (λ log w'. (v' : View) × Follows os_is_linux s v log v' × r.Shows v' w')
        (λ log. Took (sent log) w) (λ _. ⊥) (λ _. Unit) _
        (play-Follows os_is_linux (linux_port os fs) r s v w keeps shows) (play-Took os fs s w))
      (λ _ _ h. h) (λ _ h. h.0)
