-- ===== src/Linux/Port/Threads.antt =====
-- The receiving thread: at most one, and none beside a closed port.
use lib_sp.Base.{ℕ, ◌≡◌, ◌≢◌, Bool, true, false, Option, none, some, List, [], ◌∷◌, pos, arith}
use lib_sp.Params.Props.{SpProp}
use lib_sp.Linux.State.{invalid_value, invalid_thread}
use lib_sp.Effect.{run_all-keeps, Ends}
use lib_sp.Linux.Os.{Event, Os, World, call_pthread_create}
use lib_sp.Linux.Port.{init, open_port, close_port, set_read_notify, send}
use lib_sp.Linux.Live.{threads, without, is_among}
use lib_sp.Linux.Port.History.{
  Op, op_init, op_open, op_close, op_set_read_notify, op_send, perform, run,
}

abbrev running_thread : Bool → ℕ → List ℕ
running_thread true t = t ∷ []
running_thread false t = []

-- While the flag is set the port is open, there is a receiver, and the one thread is the one that
-- the object names; otherwise there is no thread and the object names none.
pub record Tracks (os : Os) (w : World) : Type 0 where
  pub alive : threads os w.trace ≡ running_thread w.thread_recv_is_running w.thread_recv
  pub opened : w.thread_recv_is_running ≡ true → w.fd ≢ invalid_value
  pub receiving : w.thread_recv_is_running ≡ true → w.precv_data ≢ none
  pub unnamed : w.thread_recv_is_running ≡ false → w.thread_recv ≡ invalid_thread

-- The system never fails to create a thread.
abbrev pub Creates : Os → Type 0
Creates os = (t : List Event) → os.result t call_pthread_create ≡ pos 0

module _ (os : Os) (creates : Creates os) where
  init-Tracks :
      (spp : SpProp) (r : Option ℕ) (w : World)
      → Tracks os w
      → Ends (λ _. Tracks os) (Tracks os) (init spp r w)
  unfolding init
  init-Tracks spp none w h = ground arith
  init-Tracks spp (some r) w h = ground arith

  open_port-Tracks : (w : World) → Tracks os w → Ends (λ _. Tracks os) (Tracks os) (open_port os w)
  unfolding open_port threads
  open_port-Tracks w h = grind (arith, creates)

  close_port-Tracks :
      (w : World) → Tracks os w → Ends (λ _. Tracks os) (Tracks os) (close_port os w)
  unfolding close_port threads without is_among
  close_port-Tracks w h = ground arith

  send-Tracks :
      (d : Option (List ℕ)) (n : ℕ) (w : World)
      → Tracks os w
      → Ends (λ _. Tracks os) (Tracks os) (send os d n w)
  unfolding send threads
  send-Tracks none n w h = h
  send-Tracks (some d) n w h = ground arith

  perform-Tracks :
      (o : Op) (w : World) → Tracks os w → Ends (λ _. Tracks os) (Tracks os) (perform os o w)
  unfolding perform set_read_notify
  perform-Tracks (op_init spp r) w h = ground (arith, init-Tracks spp r w h)
  perform-Tracks op_open w h = ground (arith, open_port-Tracks w h)
  perform-Tracks op_close w h = ground (arith, close_port-Tracks w h)
  perform-Tracks (op_set_read_notify n) w h = ground arith
  perform-Tracks (op_send d n) w h = ground (arith, send-Tracks d n w h)

  -- If threads can always be created, then after any history of calls, also one that ends in a
  -- blocked call, there is one receiving thread, the one that the object names, if the flag is set,
  -- and none otherwise; the flag is set only on an open port with a receiver.
  pub run-Tracks :
      (ops : List Op) (w : World) → Tracks os w → Ends (λ _. Tracks os) (Tracks os) (run os ops w)
  run-Tracks ops w h = run_all-keeps (perform os) (Tracks os) (Tracks os) perform-Tracks ops w h
