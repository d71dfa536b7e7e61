-- ===== src/Win/Port/Handles.antt =====
-- No method loses the handle of a device or of a thread.
use lib_sp.Base.{
  refl, ℕ, ◌≡◌, ◌≢◌, Option, none, some, not, List, [], ◌∷◌, ◌++◌, ℤ, pos, minus, eq_ℤ, ◌==◌, arith,
  if◌then◌else◌,
}
use lib_sp.Effect.{pure, Ends, Ends-bind, Ends-if, run_all-keeps}
use lib_sp.Params.Props.{SpProp}
use lib_sp.Win.State.{invalid_handle_value}
use lib_sp.Win.Os.{Os, World, Event, event, call_create_file, call_begin_thread, call_close_handle}
use lib_sp.Win.Port.{
  init, start_log, set_read_notify, set_flow_ctl, is_opened, start_thread_monitor,
  stop_thread_monitor, set_recv_thread_is_running, lock, unlock, release, close_port,
}
use lib_sp.Win.Port.Open.{
  flags_attributes, fill_dcb, configure_device, watch, set_up, refused, open_device, prepare,
  finish, open_port,
}
use lib_sp.Win.Port.Opening.{attempt, prepared, after_create}
use lib_sp.Win.Port.Send.{locking, send, send_async, send_sync, write_async}
use lib_sp.Params.Enums.{mode_async}
use lib_sp.Win.Port.Sending.{after_event}
use lib_sp.Win.Port.History.{
  Op, op_init, op_open, op_close, op_set_read_notify, op_send, perform, run,
}

-- A list without the first copy of a handle.
unfoldable pub without : ℕ → List ℕ → List ℕ
without x [] = []
without x (y ∷ ys) = if y == x then ys else y ∷ without x ys

-- The handles of devices and threads that are open after the calls of a trace.
unfoldable pub open_handles : List Event → List ℕ
unfolding without
open_handles [] = []
open_handles (event (call_create_file path access flags) r ∷ t) =
    if invalid_handle_value == r then open_handles t else r ∷ open_handles t
open_handles (event call_begin_thread r ∷ t) = if r == 0 then open_handles t else r ∷ open_handles t
open_handles (event (call_close_handle h) r ∷ t) = without h (open_handles t)
open_handles (event c r ∷ t) = open_handles t

-- What a field of the object stands for.
abbrev pub held : ℕ → List ℕ
held h = if invalid_handle_value == h then [] else h ∷ []

-- There is the device of the object and no thread.
record Bare (w : World) : Type 0 where
  device : open_handles w.trace ≡ held w.comm_handle
  no_thread : w.thread_handle ≡ invalid_handle_value

-- The open handles are those of the object's thread and device, and there is no thread without a
-- device.
pub record Owns (w : World) : Type 0 where
  pub owned : open_handles w.trace ≡ held w.thread_handle ++ held w.comm_handle
  pub no_thread : w.comm_handle ≡ invalid_handle_value → w.thread_handle ≡ invalid_handle_value

-- `_beginthreadex` gives a handle: it neither fails nor gives the value that stands for none.
abbrev pub Creates : Os → Type 0
Creates os =
    (t : List Event)
    → (os.result t call_begin_thread ≢ 0) × (os.result t call_begin_thread ≢ invalid_handle_value)

Bare-Owns : (w : World) → Bare w → Owns w
Bare-Owns w b = ground arith

Owns-closed : (w : World) → Owns w → w.comm_handle ≡ invalid_handle_value → Bare w
Owns-closed w o c = ground arith

module _ (os : Os) (creates : Creates os) where
  stop_thread_monitor-Bare : (w : World) → Owns w → Ends (λ _. Bare) Owns (stop_thread_monitor os w)
  unfolding stop_thread_monitor set_recv_thread_is_running lock unlock open_handles without
  stop_thread_monitor-Bare w o = ground arith

  release-Bare : (w : World) → Bare w → Ends (λ _. Bare) Owns (release os w)
  unfolding release open_handles without
  release-Bare w b = ground arith

  fill_dcb-Bare :
      (w : World)
      → Bare w
      → w.comm_handle ≢ invalid_handle_value
      → Ends (λ _ u. Bare u × (u.comm_handle ≢ invalid_handle_value)) Owns (fill_dcb os w)
  unfolding fill_dcb open_handles
  fill_dcb-Bare w b o = ground arith

  set_flow_ctl-Bare :
      (fc : ℕ) (w : World)
      → Bare w
      → w.comm_handle ≢ invalid_handle_value
      → Ends (λ _ u. Bare u × (u.comm_handle ≢ invalid_handle_value)) Owns (set_flow_ctl os fc w)
  unfolding set_flow_ctl is_opened open_handles
  set_flow_ctl-Bare fc w b o = ground arith

  watch-Owns :
      (w : World)
      → Bare w
      → w.comm_handle ≢ invalid_handle_value
      → Ends (λ _. Owns) Owns (watch os w)
  unfolding watch start_thread_monitor open_handles
  watch-Owns w b o = grind (arith, creates)

  -- The device is there, and no thread.
  abbrev BareOpen : World → Type 0
  BareOpen u = Bare u × (u.comm_handle ≢ invalid_handle_value)

  configure_device-Bare :
      (w : World) → BareOpen w → Ends (λ _. BareOpen) Owns (configure_device os w)
  unfolding configure_device
  configure_device-Bare w b =
      Ends-bind (λ _. BareOpen) (λ _. BareOpen) Owns (fill_dcb os) _ w (fill_dcb-Bare w b.0 b.1)
        (λ _ u c. set_flow_ctl-Bare u.spp.flow_ctl u c.0 c.1)

  set_up-Owns : (w : World) → BareOpen w → Ends (λ _. Owns) Owns (set_up os w)
  unfolding set_up watch start_thread_monitor open_handles
  set_up-Owns w b =
      Ends-bind (λ _. BareOpen) (λ _. Owns) Owns (configure_device os) _ w
        (configure_device-Bare w b) (λ _ u c. grind (arith, creates, c.0))

  after_create-Bare :
      (flags : ℕ) (w : World)
      → Bare w
      → w.comm_handle ≡ invalid_handle_value
      → Bare (after_create os flags w)
  unfolding open_handles
  after_create-Bare flags w b c = ground arith

  open_device-Owns :
      (flags : ℕ) (w : World)
      → Bare w
      → w.comm_handle ≡ invalid_handle_value
      → Ends (λ _. Owns) Owns (open_device os flags w)
  unfolding open_device refused
  open_device-Owns flags w b c =
      let v = after_create os flags w in
      Ends-if (λ _. Owns) Owns (invalid_handle_value == v.comm_handle) (refused os) (set_up os) v
        (λ e. Bare-Owns v (after_create-Bare flags w b c))
        (λ e. set_up-Owns v (after_create-Bare flags w b c, λ q. ground arith))

  close_port-Owns : (w : World) → Owns w → Ends (λ _. Owns) Owns (close_port os w)
  unfolding close_port is_opened open_handles
  close_port-Owns w o =
      Ends-if (λ _. Owns) Owns (not (not (invalid_handle_value == w.comm_handle))) _ _ w (λ _. o)
        (λ _.
          Ends-bind (λ _. Bare) (λ _. Owns) Owns (stop_thread_monitor os) _ w
            (stop_thread_monitor-Bare w o)
            (λ _ u b.
              Ends-bind (λ _. Bare) (λ _. Owns) Owns (release os) _ u (release-Bare u b)
                (λ _ v c. ground arith)))

  finish-Owns : (r : ℤ) (w : World) → Owns w → Ends (λ _. Owns) Owns (finish os r w)
  unfolding finish
  finish-Owns r w o =
      Ends-if (λ _. Owns) Owns (eq_ℤ (pos 0) r) _ _ w (λ _. o)
        (λ _.
          Ends-bind (λ _. Owns) (λ _. Owns) Owns (close_port os) _ w (close_port-Owns w o)
            (λ _ u p. p))

  attempt-Owns :
      (w v : World)
      → Owns v
      → v.comm_handle ≡ w.comm_handle
      → Ends (λ _. Owns) Owns (attempt os w v)
  attempt-Owns w v o e =
      Ends-if (λ _. Owns) Owns (not (not (invalid_handle_value == w.comm_handle)))
        (open_device os (flags_attributes w.spp.op_mode)) (pure (minus 5)) v
        (λ c.
          let shut : v.comm_handle ≡ invalid_handle_value = ground (arith, e, c) in
          open_device-Owns (flags_attributes w.spp.op_mode) v (Owns-closed v o shut) shut)
        (λ _. o)

  open_port-Owns : (w : World) → Owns w → Ends (λ _. Owns) Owns (open_port os w)
  unfolding open_port prepare is_opened
  open_port-Owns w o =
      Ends-if (λ _. Owns) Owns (not w.is_init) _ _ w (λ _. o)
        (λ _.
          Ends-bind (λ _. Owns) (λ _. Owns) Owns (attempt os w) (finish os) (prepared os w)
            (attempt-Owns w (prepared os w) (record { owned = o.owned; no_thread = o.no_thread })
              refl)
            (λ r u p. finish-Owns r u p))

  write_async-Owns :
      (d : List ℕ) (n : ℕ) (w : World) → Owns w → Ends (λ _. Owns) Owns (write_async os d n w)
  unfolding write_async locking unlock open_handles
  write_async-Owns d n w o = ground arith

  after_event-Owns : (w : World) → Owns w → Owns (after_event os w)
  unfolding open_handles
  after_event-Owns w o = record { owned = o.owned; no_thread = o.no_thread }

  send_async-Owns :
      (d : List ℕ) (n : ℕ) (w : World) → Owns w → Ends (λ _. Owns) Owns (send_async os d n w)
  unfolding send_async
  send_async-Owns d n w o = write_async-Owns d n (after_event os w) (after_event-Owns w o)

  send_sync-Owns :
      (d : List ℕ) (n : ℕ) (w : World) → Owns w → Ends (λ _. Owns) Owns (send_sync os d n w)
  unfolding send_sync locking unlock open_handles
  send_sync-Owns d n w o = ground arith

  send-Owns :
      (d : Option (List ℕ)) (n : ℕ) (w : World) → Owns w → Ends (λ _. Owns) Owns (send os d n w)
  unfolding send is_opened
  send-Owns none n w o = o
  send-Owns (some d) n w o =
      Ends-if (λ _. Owns) Owns (n == 0) _ _ w (λ _. o)
        (λ _.
          Ends-if (λ _. Owns) Owns (not (not (invalid_handle_value == w.comm_handle))) _ _ w
            (λ _. o)
            (λ _.
              Ends-if (λ _. Owns) Owns (mode_async == w.spp.op_mode) _ _ w
                (λ _. send_async-Owns d n w o) (λ _. send_sync-Owns d n w o)))

  init-Owns :
      (spp : SpProp) (r : Option ℕ) (w : World) → Owns w → Ends (λ _. Owns) Owns (init os spp r w)
  unfolding init start_log open_handles
  init-Owns spp r w o = ground arith

  perform-Owns : (o : Op) (w : World) → Owns w → Ends (λ _. Owns) Owns (perform os o w)
  unfolding perform set_read_notify
  perform-Owns (op_init spp r) w h =
      Ends-bind (λ _. Owns) (λ _. Owns) Owns (init os spp r) _ w (init-Owns spp r w h) (λ _ u p. p)
  perform-Owns op_open w h =
      Ends-bind (λ _. Owns) (λ _. Owns) Owns (open_port os) _ w (open_port-Owns w h) (λ _ u p. p)
  perform-Owns op_close w h =
      Ends-bind (λ _. Owns) (λ _. Owns) Owns (close_port os) _ w (close_port-Owns w h) (λ _ u p. p)
  perform-Owns (op_set_read_notify n) w h = record { owned = h.owned; no_thread = h.no_thread }
  perform-Owns (op_send d n) w h =
      Ends-bind (λ _. Owns) (λ _. Owns) Owns (send os d n) _ w (send-Owns d n w h) (λ _ u p. p)

  -- Where threads can be created: over any history of calls, also one that ends in a blocked call,
  -- the open handles of devices and threads are those that the object names, each once, and a
  -- closed port has neither.
  pub run-OwnsHandles : (ops : List Op) (w : World) → Owns w → Ends (λ _. Owns) Owns (run os ops w)
  run-OwnsHandles ops w h = run_all-keeps (perform os) Owns Owns perform-Owns ops w h
