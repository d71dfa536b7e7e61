-- ===== src/Linux/Port/Locking.antt =====
-- The mutex that `send` takes: who gives it back, and what waits for it.
use lib_sp.Base.{ℤ, ℕ, ◌≡◌, ◌≢◌, true, false, none, some, List, [], ◌∷◌, minus, arith, take}
use lib_sp.Linux.State.{invalid_value}
use lib_sp.Effect.{run_all, run_all-keeps, Ends, Ends-bind, Ends-mono, Ends-and, blocked}
use lib_sp.Linux.Os.{event, Os, World, call_write}
use lib_sp.Linux.Live.{Unjoinable}
use lib_sp.Linux.Port.{init, open_port, close_port, set_read_notify, send}
use lib_sp.Linux.Port.History.{
  Op, op_init, op_open, op_close, op_set_read_notify, op_send, perform, run,
}

-- The mutex is held, or free.
abbrev pub Held : World → Type 0
Held w = w.mutex_recv ≡ true

abbrev pub Free : World → Type 0
Free w = w.mutex_recv ≡ false

-- `send` has made one `write` of the first `n` bytes and nothing else.
abbrev Sent : Os → List ℕ → ℕ → World → ℤ → World → Type 0
Sent os d n w r w' =
    let c = call_write w.fd (take n d) in
    (r ≡ os.result w.trace c)
    × (w'.trace ≡ event c r ∷ w.trace)
    × (w'.param ≡ w.param)
    × (w'.delivered ≡ w.delivered)

module _ (os : Os) where
  -- On an open port with a free mutex `send` of some data always returns: it makes one `write` of
  -- the first `n` bytes, returns what that returned and leaves the object, its mutex included, as
  -- it was.
  send-opened :
      (d : List ℕ) (n : ℕ) (w : World)
      → n ≢ 0
      → w.fd ≢ invalid_value
      → Free w
      → Ends (Sent os d n w) (λ _. ⊥) (send os (some d) n w)
  unfolding send
  send-opened d n w some_data opened free = ground arith

  -- On a closed port it returns -2 without a call and keeps the mutex.
  pub send-closed :
      (d : List ℕ) (n : ℕ) (w : World)
      → n ≢ 0
      → w.fd ≡ invalid_value
      → Free w
      → Ends
          (λ r w'. (r ≡ minus 2) × Held w' × (w'.trace ≡ w.trace) × (w'.fd ≡ invalid_value))
          (λ _. ⊥)
          (send os (some d) n w)
  unfolding send
  send-closed d n w some_data closed free = ground arith

  perform-Held : (o : Op) (w : World) → Held w → Ends (λ _. Held) Held (perform os o w)
  unfolding perform init open_port close_port set_read_notify send
  perform-Held (op_init spp none) w h = ground arith
  perform-Held (op_init spp (some r)) w h = ground arith
  perform-Held op_open w h = ground arith
  perform-Held op_close w h = ground arith
  perform-Held (op_set_read_notify n) w h = ground arith
  perform-Held (op_send none n) w h = ground arith
  perform-Held (op_send (some d) n) w h = ground arith

  send-Held : (d : List ℕ) (n : ℕ) (w : World) → n ≢ 0 → Held w → send os (some d) n w ≡ blocked w
  unfolding send
  send-Held d n w some_data h = ground arith

  -- Once `send` was called on a closed port the mutex is lost: whatever methods are called next,
  -- also `open`, each later `send` of some data is blocked.
  pub send-closed_blocks :
      (d : List ℕ) (n : ℕ) (w : World)
      → n ≢ 0
      → w.fd ≡ invalid_value
      → Free w
      → (ops : List Op) (e : List ℕ) (m : ℕ) → m ≢ 0
      → Ends
          (λ _ w'. Ends (λ _ u. send os (some e) m u ≡ blocked u) Held (run os ops w'))
          (λ _. ⊥)
          (send os (some d) n w)
  send-closed_blocks d n w some_data closed free ops e m more =
      Ends-mono (send os (some d) n w) (send-closed d n w some_data closed free)
        (λ _ w' h.
          Ends-mono (run os ops w') (run_all-keeps (perform os) Held Held perform-Held ops w' h.1)
            (λ _ u held. send-Held e m u more held) (λ _ held. held))
        (λ _ never. never)

  -- A call that does not send data through a closed port.
  abbrev pub Careful : Op → World → Type 0
  Careful (op_send (some d) n) w = n ≢ 0 → w.fd ≢ invalid_value
  Careful o w = Unit {0}

  -- The mutex is free; if the program goes no further, it joins a handle that names no thread.
  abbrev pub JoinsFree : World → Type 0
  JoinsFree w = Free w × Unjoinable os w

  perform-Free :
      (o : Op) (w : World) → Careful o w → Free w → Ends (λ _. Free) JoinsFree (perform os o w)
  unfolding perform init open_port close_port set_read_notify send
  perform-Free (op_init spp none) w c h = ground arith
  perform-Free (op_init spp (some r)) w c h = ground arith
  perform-Free op_open w c h = ground arith
  perform-Free op_close w c h = ground arith
  perform-Free (op_set_read_notify n) w c h = ground arith
  perform-Free (op_send none n) w c h = ground arith
  perform-Free (op_send (some d) n) w c h = ground arith

  -- Every call of a history is careful in the state in which it is made.
  abbrev pub AllCareful : List Op → World → Type 0
  AllCareful [] w = Unit {0}
  AllCareful (o ∷ ops) w = Careful o w × Ends (λ _. AllCareful ops) (λ _. Unit {0}) (perform os o w)

  -- In a history that never sends data through a closed port no call waits for the mutex: the
  -- history runs to its end, or up to a join of a handle that names no thread, which has no defined
  -- behaviour; and the mutex is free in both cases.
  pub run-Free :
      (ops : List Op) (w : World)
      → AllCareful ops w
      → Free w
      → Ends (λ _. Free) JoinsFree (run os ops w)
  unfolding run_all
  run-Free [] w c h = h
  run-Free (o ∷ ops) w c h =
      Ends-bind (λ _ w'. Free w' × AllCareful ops w') (λ _. Free) JoinsFree (perform os o)
        (λ _. run os ops) w
        (Ends-mono (perform os o w)
          (Ends-and (λ _. Free) (λ _. AllCareful ops) JoinsFree (λ _. Unit {0}) (perform os o w)
            (perform-Free o w c.0 h) c.1)
          (λ _ _ both. both) (λ _ both. both.0))
        (λ _ w' both. run-Free ops w' both.1 both.0)
