-- ===== src/Linux/Port/Descriptors.antt =====
-- No method leaks a file descriptor.
use lib_sp.Base.{ℕ, ◌≡◌, Option, none, some, List, [], ◌∷◌, ℤ, minus, eq_ℤ, arith, if◌then◌else◌}
use lib_sp.Params.Props.{SpProp}
use lib_sp.Linux.State.{invalid_value}
use lib_sp.Effect.{run_all-keeps, Ends}
use lib_sp.Linux.Os.{Event, event, Os, World, call_open, call_close}
use lib_sp.Linux.Port.{
  init, open_port, close_port, set_read_notify, send, set_port_params, give_up, start_receiver,
}
use lib_sp.Linux.Port.History.{
  Op, op_init, op_open, op_close, op_set_read_notify, op_send, perform, run,
}

-- A list without the first copy of a descriptor.
unfoldable pub without : ℤ → List ℤ → List ℤ
without x [] = []
without x (y ∷ ys) = if eq_ℤ y x then ys else y ∷ without x ys

-- The descriptors that the process holds after the calls of a trace. `open` returns -1 where it
-- fails.
unfoldable pub open_fds : List Event → List ℤ
unfolding without
open_fds [] = []
open_fds (event (call_open path flags) r ∷ t) =
    if eq_ℤ r (minus 1) then open_fds t else r ∷ open_fds t
open_fds (event (call_close fd) r ∷ t) = without fd (open_fds t)
open_fds (event c r ∷ t) = open_fds t

-- The descriptors that the object stands for.
abbrev pub held : ℤ → List ℤ
held fd = if eq_ℤ fd invalid_value then [] else fd ∷ []

-- The object's descriptor is the one open descriptor, and there is none if the port is closed.
abbrev pub Owns : World → Type 0
Owns w = open_fds w.trace ≡ held w.fd

module _ (os : Os) where
  init-Owns :
      (spp : SpProp) (r : Option ℕ) (w : World) → Owns w → Ends (λ _. Owns) Owns (init spp r w)
  unfolding init
  init-Owns spp r w h = ground arith

  close_port-Owns : (w : World) → Owns w → Ends (λ _. Owns) Owns (close_port os w)
  unfolding close_port open_fds
  close_port-Owns w h = ground arith

  send-Owns :
      (d : Option (List ℕ)) (n : ℕ) (w : World) → Owns w → Ends (λ _. Owns) Owns (send os d n w)
  unfolding send open_fds
  send-Owns none n w h = h
  send-Owns (some d) n w h = ground arith

  set_port_params-Owns : (w : World) → Owns w → Ends (λ _. Owns) Owns (set_port_params os w)
  unfolding set_port_params open_fds
  set_port_params-Owns w h = ground arith

  start_receiver-Owns : (w : World) → Owns w → Ends (λ _. Owns) Owns (start_receiver os w)
  unfolding start_receiver open_fds
  start_receiver-Owns w h = ground arith

  give_up-Owns : (w : World) → Owns w → Ends (λ _. Owns) Owns (give_up os w)
  unfolding give_up open_fds
  give_up-Owns w h = ground arith

  open_port-Owns : (w : World) → Owns w → Ends (λ _. Owns) Owns (open_port os w)
  unfolding open_port open_fds
  open_port-Owns w h = ground arith

  perform-Owns : (o : Op) (w : World) → Owns w → Ends (λ _. Owns) Owns (perform os o w)
  unfolding perform set_read_notify
  perform-Owns (op_init spp r) w h = ground (arith, init-Owns spp r w h)
  perform-Owns op_open w h = ground (arith, open_port-Owns w h)
  perform-Owns op_close w h = ground (arith, close_port-Owns w h)
  perform-Owns (op_set_read_notify n) w h = h
  perform-Owns (op_send d n) w h = ground (arith, send-Owns d n w h)

  -- Over any history of calls, also one that ends in a blocked call, the object's descriptor is the
  -- only one that is open, and none is open while the port counts as closed.
  pub run-Owns : (ops : List Op) (w : World) → Owns w → Ends (λ _. Owns) Owns (run os ops w)
  run-Owns ops w h = run_all-keeps (perform os) Owns Owns perform-Owns ops w h
