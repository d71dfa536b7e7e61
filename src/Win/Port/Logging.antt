-- ===== src/Win/Port/Logging.antt =====
-- The logger of src/serial_port_win_base.cpp: `init` asks spdlog for a logger by a name that is the
-- same for all objects, and spdlog keeps the names that are taken.
use lib_sp.Base.{
  ℕ, ◌≡◌, Bool-cases, inl, inr, ◌≢◌, ◌⊎◌, Bool, true, false, not, Option, none, some, List, [], ◌∷◌,
  pos, ◌==◌, arith, if◌then◌else◌,
}
use lib_sp.Effect.{Ends, Ends-bind, Ends-if, Ends-mono, run_all, run_all-keeps}
use lib_sp.Params.Props.{os_is_win, SpProp}
use lib_sp.Params.Check.{is_right, get_instance}
use lib_sp.Win.Os.{Os, World, Call, Event, event, call_rotating_logger, call_shutdown}
use lib_sp.Params.Enums.{mode_async}
use lib_sp.Win.State.{invalid_handle_value, SpParamWin}
use lib_sp.Win.Port.{
  destroy, is_opened, start_log, init, unlock, is_opened, close_port, set_read_notify,
}
use lib_sp.Win.Port.Open.{open_port}
use lib_sp.Win.Port.Closing.{Opened}
use lib_sp.Win.Port.Frame.{is_inner, open_port-Kept, close_port-Kept}
use lib_sp.Win.Port.Send.{locking, send, send_async, send_sync, write_async}
use lib_sp.Win.Port.History.{
  Op, op_init, op_open, op_close, op_set_read_notify, op_send, perform, run,
}

-- Whether the name is taken after the calls of a trace: a logger was made, and there was no
-- `shutdown` since.
unfoldable pub registered : List Event → Bool
registered [] = false
registered (event call_rotating_logger r ∷ t) = if r == 0 then registered t else true
registered (event call_shutdown r ∷ t) = false
registered (event c r ∷ t) = registered t

-- A logger can be made while the name is free.
abbrev pub MakesLoggers : Os → Type 0
MakesLoggers os = (t : List Event) → registered t ≡ false → os.result t call_rotating_logger ≢ 0

-- spdlog: a second logger with a name that is taken is not made.
abbrev pub RefusesTaken : Os → Type 0
RefusesTaken os = (t : List Event) → registered t ≡ true → os.result t call_rotating_logger ≡ 0

-- What the start of the log leaves alone.
pub record Started (w u : World) : Type 0 where
  pub spp : u.spp ≡ w.spp
  pub is_init : u.is_init ≡ w.is_init
  pub comm_handle : u.comm_handle ≡ w.comm_handle
  pub thread_handle : u.thread_handle ≡ w.thread_handle
  pub is_running : u.is_running ≡ w.is_running
  pub mutex_recv : u.mutex_recv ≡ w.mutex_recv

module _ (os : Os) where
  -- Without logging, or while the name is free.
  pub start_log-Started :
      (w : World)
      → MakesLoggers os
      → (registered w.trace ≡ false) ⊎ (w.spp.is_to_log ≡ false)
      → Ends (λ _. Started w) (λ _. ⊥) (start_log os w)
  unfolding start_log
  start_log-Started w m h = ground (arith, m w.trace)

-- `init` accepts the properties, which ask for a log.
abbrev pub Logs : SpProp → Type 0
Logs spp = (is_right (get_instance os_is_win) spp ≡ pos 0) × (spp.is_to_log ≡ true)

-- The name is taken.
abbrev Taken : World → Type 0
Taken w = registered w.trace ≡ true

-- `init` of the properties, on the object `p`, does not return.
abbrev pub NoSecondLog : Os → SpProp → Option ℕ → SpParamWin → World → Type 0
NoSecondLog os spp r p u = Ends (λ _ _. ⊥) (λ _. Unit {0}) (init os spp r (record u { param = p }))

module _ (os : Os) (refuses : RefusesTaken os) where
  -- `init` ends the program.
  init-Ends :
      (spp : SpProp) (r : Option ℕ) (w : World)
      → Logs spp
      → Taken w
      → Ends (λ _ _. ⊥) (λ _. Unit {0}) (init os spp r w)
  unfolding init start_log
  init-Ends spp r w (a, l) h = ground (arith, refuses w.trace, a, l)

  init-Taken :
      (spp : SpProp) (r : Option ℕ) (w : World)
      → Taken w
      → Ends (λ _. Taken) Taken (init os spp r w)
  unfolding init start_log registered
  init-Taken spp r w h = ground arith

  Taken-event :
      (c : Call) (r : ℕ) (t : List Event)
      → is_inner c ≡ true
      → registered t ≡ true
      → registered (event c r ∷ t) ≡ true
  unfolding registered
  Taken-event c r t e h = ground arith

  send_async-Taken :
      (d : List ℕ) (n : ℕ) (w : World) → Taken w → Ends (λ _. Taken) Taken (send_async os d n w)
  unfolding send_async write_async locking unlock registered
  send_async-Taken d n w h = ground arith

  send_sync-Taken :
      (d : List ℕ) (n : ℕ) (w : World) → Taken w → Ends (λ _. Taken) Taken (send_sync os d n w)
  unfolding send_sync locking unlock registered
  send_sync-Taken d n w h = ground arith

  send-Taken :
      (d : Option (List ℕ)) (n : ℕ) (w : World) → Taken w → Ends (λ _. Taken) Taken (send os d n w)
  unfolding send is_opened
  send-Taken none n w h = h
  send-Taken (some d) n w h =
      Ends-if (λ _. Taken) Taken (n == 0) _ _ w (λ _. h)
        (λ _.
          Ends-if (λ _. Taken) Taken (not (not (invalid_handle_value == w.comm_handle))) _ _ w
            (λ _. h)
            (λ _.
              Ends-if (λ _. Taken) Taken (mode_async == w.spp.op_mode) _ _ w
                (λ _. send_async-Taken d n w h) (λ _. send_sync-Taken d n w h)))

  perform-Taken : (o : Op) (w : World) → Taken w → Ends (λ _. Taken) Taken (perform os o w)
  unfolding perform set_read_notify
  perform-Taken (op_init spp r) w h =
      Ends-bind (λ _. Taken) (λ _. Taken) Taken (init os spp r) _ w (init-Taken spp r w h)
        (λ _ u p. p)
  perform-Taken op_open w h =
      Ends-bind (λ _. Taken) (λ _. Taken) Taken (open_port os) _ w
        (open_port-Kept os (λ t. registered t ≡ true) Taken-event w h) (λ _ u p. p)
  perform-Taken op_close w h =
      Ends-bind (λ _. Taken) (λ _. Taken) Taken (close_port os) _ w
        (close_port-Kept os (λ t. registered t ≡ true) Taken-event w h) (λ _ u p. p)
  perform-Taken (op_set_read_notify n) w h = h
  perform-Taken (op_send d n) w h =
      Ends-bind (λ _. Taken) (λ _. Taken) Taken (send os d n) _ w (send-Taken d n w h) (λ _ u p. p)

  -- An `init` that returns has taken the name.
  init-Logs :
      (spp : SpProp) (r : Option ℕ) (w : World)
      → Logs spp
      → Ends (λ _. Taken) (λ _. Unit {0}) (init os spp r w)
  unfolding init start_log registered
  init-Logs spp r w (a, l) = ground (arith, a, l)

  destroy-closed :
      (w : World)
      → w.comm_handle ≡ invalid_handle_value
      → Ends (λ _ u. u.trace ≡ w.trace) (λ _. ⊥) (destroy os w)
  unfolding destroy is_opened
  destroy-closed w c = ground (arith, c)

  -- After an `init` that asked for a log and returned, and then any history of calls of the object,
  -- `init`, `open` and `close` included: the next `init` that asks for a log, on this object or on
  -- another, ends the program, where the properties of both are right and spdlog refuses a name
  -- that is taken. The same holds after the destructor, unless the port is open.
  pub run-NoSecondLog :
      (ops : List Op) (first spp : SpProp) (r q : Option ℕ) (p : SpParamWin) (w : World)
      → Logs first
      → Logs spp
      → Ends
          (λ _ u.
            NoSecondLog os spp q p u
            × (Opened u ⊎ Ends (λ _. NoSecondLog os spp q p) (λ _. ⊥) (destroy os u)))
          (λ _. Unit {0})
          (run os (op_init first r ∷ ops) w)
  unfolding run_all perform
  run-NoSecondLog ops first spp r q p w f l =
      Ends-bind (λ _. Taken) _ (λ _. Unit {0}) (perform os (op_init first r)) (λ _. run os ops) w
        (Ends-bind (λ _. Taken) (λ _. Taken) (λ _. Unit {0}) (init os first r) _ w
          (init-Logs first r w f) (λ _ u k. k))
        (λ _ u h.
          Ends-mono (run os ops u) (run_all-keeps (perform os) Taken Taken perform-Taken ops u h)
            (λ _ v k. (
              init-Ends spp q (record v { param = p }) l k,
              elim (Bool-cases (invalid_handle_value == v.comm_handle)) [
                | inl e ↦ inr (
                    Ends-mono (destroy os v) (destroy-closed v (ground (arith, e)))
                      (λ _ x t. init-Ends spp q (record x { param = p }) l (rw t k)) (λ _ b. b))
                | inr e ↦ inl (λ c. ground (arith, e, c))
              ],
            ))
            (λ _ _. tt))
