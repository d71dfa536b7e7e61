-- ===== src/Win/Stream.antt =====
-- The data that a Windows port hands to `WriteFile`.
use mathlib.Core.List.{append_assoc, append-nil}
use lib_sp.Base.{
  ℕ, zero, suc, true, List, [], ◌∷◌, ◌++◌, none, some, Option, take, ◌≡◌, refl, sym, ap, ◌∙◌, ℤ,
  arith,
}
use lib_sp.Effect.{Ends, Ends-bind, Ends-mono, Ends-and}
use lib_sp.Params.Props.{os_is_win, SpProp, SpNameDesc}
use lib_sp.Interface.{
  Op, op_init, op_open, op_close, op_set_read_notify, op_send, call, Session, ends, calls, play,
}
use lib_sp.Interface.Contract.{View, fresh, ready, opened, Permitted}
use lib_sp.Interface.History.{Follows, Keeps}
use lib_sp.Win.State.{CommInfoWin}
use lib_sp.Win.Os.{Os, World, Call, Event, event, call_write_file}
use lib_sp.Win.Port.{init, start_log, unlock, set_read_notify, close_port}
use lib_sp.Win.Port.Open.{open_port}
use lib_sp.Win.Port.Send.{locking, send, send_async, write_async}
use lib_sp.Win.Port.Sending.{send-Opened}
use lib_sp.Win.Port.Closing.{Free}
use lib_sp.Win.Port.Frame.{is_inner, open_port-Kept, close_port-Kept}
use lib_sp.Win.Port.Logging.{MakesLoggers}
use lib_sp.Win.Contract.{win_port, Shows, Step}
use lib_sp.Win.Contract.Refinement.{call-Shows}

-- The data of each `WriteFile` of a trace, the oldest first.
unfoldable pub writes : List Event → List (List ℕ)
writes [] = []
writes (event (call_write_file handle d) r ∷ t) = writes t ++ d ∷ []
writes (event c r ∷ t) = writes t

-- What a call has written.
abbrev pub piece : Op → List (List ℕ)
piece (op_send (some d) (suc n)) = take (suc n) d ∷ []
piece _ = []

-- What the calls of a session have written.
unfoldable pub pieces : List (Op × ℤ) → List (List ℕ)
pieces [] = []
pieces ((o, c) ∷ log) = piece o ++ pieces log

abbrev pub Wrote : List (List ℕ) → World → World → Type 0
Wrote b w u = writes u.trace ≡ writes w.trace ++ b

Wrote-nothing : (w u : World) → writes u.trace ≡ writes w.trace → Wrote [] w u
Wrote-nothing w u h = h ∙ sym (append-nil (writes w.trace))

Wrote-append :
    (a b : List (List ℕ)) (u v w : World) → Wrote a u v → Wrote b v w → Wrote (a ++ b) u w
Wrote-append a b u v w h k = k ∙ ap (λ t. t ++ b) h ∙ append_assoc (writes u.trace) a b

writes_event :
    (b : List (List ℕ)) (c : Call) (r : ℕ) (t : List Event)
    → is_inner c ≡ true
    → writes t ≡ b
    → writes (event c r ∷ t) ≡ b
unfolding writes
writes_event b c r t e h = ground arith

module _ (os : Os) where
  init-Wrote :
      (spp : SpProp) (r : Option ℕ) (w : World)
      → Ends (λ _. Wrote [] w) (λ _. Unit {0}) (init os spp r w)
  unfolding init start_log writes
  init-Wrote spp r w = ground (arith, append-nil (writes w.trace))

  open_port-Wrote : (w : World) → Ends (λ _. Wrote [] w) (λ _. Unit {0}) (open_port os w)
  open_port-Wrote w =
      Ends-mono (open_port os w)
        (open_port-Kept os (λ t. writes t ≡ writes w.trace) (writes_event (writes w.trace)) w refl)
        (λ _ u h. Wrote-nothing w u h) (λ _ _. tt)

  close_port-Wrote : (w : World) → Ends (λ _. Wrote [] w) (λ _. Unit {0}) (close_port os w)
  close_port-Wrote w =
      Ends-mono (close_port os w)
        (close_port-Kept os (λ t. writes t ≡ writes w.trace) (writes_event (writes w.trace)) w refl)
        (λ _ u h. Wrote-nothing w u h) (λ _ _. tt)

  send_async-Wrote :
      (d : List ℕ) (n : ℕ) (w : World)
      → Free w
      → Ends (λ _. Wrote (take n d ∷ []) w) (λ _. ⊥) (send_async os d n w)
  unfolding send_async write_async locking unlock writes
  send_async-Wrote d n w free = ground arith

  send-Wrote :
      (d : List ℕ) (n : ℕ) (v : View) (w : World)
      → v ≡ opened
      → Shows v w
      → Ends (λ _. Wrote (take (suc n) d ∷ []) w) (λ _. ⊥) (send os (some d) (suc n) w)
  send-Wrote d n fresh w e h = cc
  send-Wrote d n ready w e h = cc
  send-Wrote d n opened w e h =
      send-Opened os (λ _. Wrote (take (suc n) d ∷ []) w) d (suc n) w (λ q. ground arith) h.1 h.3
        (send_async-Wrote d (suc n) w h.0)

  module _ (before : World) (c : CommInfoWin) (ports : List SpNameDesc) where
    call-Wrote :
        (o : Op) (v : View) (w : World)
        → Permitted os_is_win o v
        → Shows v w
        → Ends (λ _. Wrote (piece o) w) (λ _. Unit {0}) (call (win_port os before c ports) o w)
    unfolding call set_read_notify send
    call-Wrote (op_init spp r) v w p h = init-Wrote spp r w
    call-Wrote op_open v w p h = open_port-Wrote w
    call-Wrote op_close v w p h = close_port-Wrote w
    call-Wrote (op_set_read_notify n) v w p h = sym (append-nil _)
    call-Wrote (op_send none n) v w p h = sym (append-nil _)
    call-Wrote (op_send (some d) zero) v w p h = sym (append-nil _)
    call-Wrote (op_send (some d) (suc n)) v w p h =
        Ends-mono (send os (some d) (suc n) w) (send-Wrote d n v w (p (λ e. ground arith)) h)
          (λ _ _ k. k) (λ _ k. elim k [ ])

    call-StepWrote :
        MakesLoggers os
        → (o : Op) (v : View) (w : World) → Permitted os_is_win o v
        → Shows v w
        → Ends
            (λ r u. Step o v r u × Wrote (piece o) w u)
            (λ _. ⊥)
            (call (win_port os before c ports) o w)
    call-StepWrote makes o v w p h =
        let m = call (win_port os before c ports) o w in
        Ends-mono m
          (Ends-and (Step o v) (λ _. Wrote (piece o) w) (λ _. ⊥) (λ _. Unit {0}) m
            (call-Shows os makes before c ports o v w p h) (call-Wrote o v w p h))
          (λ _ _ k. k) (λ _ k. k.0)

    -- Where a logger can be made while its name is free: a session of permitted calls on the Windows
    -- port runs to its end, whatever the system answers, with codes that the contract allows. Each
    -- `send` of some data has made one `WriteFile` of its first bytes, as many as its length says, in
    -- the order of the calls, and nothing else was written, also where calls have failed.
    pub play-Wrote :
        (s : Session) (v : View) (w : World)
        → MakesLoggers os
        → Keeps os_is_win s v
        → Shows v w
        → Ends
            (λ log u.
              ((v' : View) × Follows os_is_win s v log v' × Shows v' u) × Wrote (pieces log) w u)
            (λ _. ⊥)
            (play (win_port os before c ports) s w)
    unfolding play pieces
    play-Wrote ends v w makes keeps h = ((v, (refl, refl), h), sym (append-nil _))
    play-Wrote (calls o next) v w makes keeps h =
        Ends-bind (λ r u. Step o v r u × Wrote (piece o) w u)
          (λ log u.
            ((v' : View) × Follows os_is_win (calls o next) v log v' × Shows v' u)
            × Wrote (pieces log) w u)
          (λ _. ⊥) (call (win_port os before c ports) o) _ w (call-StepWrote makes o v w keeps.0 h)
          (λ r u a.
            Ends-bind
              (λ log x.
                ((v' : View) × Follows os_is_win (next r) a.0.0 log v' × Shows v' x)
                × Wrote (pieces log) u x)
              _ (λ _. ⊥) (play (win_port os before c ports) (next r)) _ u
              (play-Wrote (next r) a.0.0 u makes (keeps.1 r a.0.0 a.0.1) a.0.2)
              (λ log x b. (
                (b.0.0, (r, log, a.0.0, refl, a.0.1, b.0.1), b.0.2),
                Wrote-append (piece o) (pieces log) w u x a.1 b.1,
              )))
