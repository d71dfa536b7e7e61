-- ===== src/Win/Contract/Refinement.antt =====
-- The Windows port refines the abstract port.
use lib_sp.Base.{
  zero, suc, eq_ℤ→eq, negsuc, if◌then◌else◌, sym, ◌∙◌, ap, not, eq_ℤ, Bool-cases, ℕ, true, false,
  Option, none, some, List, ℤ, pos, minus, ◌==◌, ◌≡◌, ◌≢◌, ◌⊎◌, inl, inr, refl, arith,
}
use lib_sp.Effect.{returned, Ends, Ends-weaken, Ends-if, Ends-bind}
use lib_sp.Params.Enums.{mode_async}
use lib_sp.Params.Props.{os_is_win, SpProp, SpNameDesc}
use lib_sp.Params.Check.{is_right, get_instance}
use lib_sp.Interface.{Op, op_init, op_open, op_close, op_set_read_notify, op_send, call}
use lib_sp.Interface.Contract.{
  View, fresh, ready, opened, Permitted, Refines, after_init, after_close, is_open,
}
use lib_sp.Win.State.{CommInfoWin, invalid_handle_value}
use lib_sp.Win.Os.{Os, World}
use lib_sp.Win.Port.{
  new, init, close_port, set_read_notify, is_opened, destroy, start_log, stop_log,
}
use lib_sp.Win.Port.Open.{open_port}
use lib_sp.Win.Port.Send.{send}
use lib_sp.Win.Port.Logging.{registered, MakesLoggers, Started, start_log-Started}
use lib_sp.Win.Port.Closing.{Free, Closed, close_port-Closed}
use lib_sp.Win.Port.Opening.{Answered, open_port-Answered}
use lib_sp.Win.Port.Sending.{SentAsync, send-async_leaks}
use lib_sp.Win.Contract.{win_port, Shows, Step}

-- The mutex is free, and the device and the properties that matter are as they were.
record Kept (w u : World) : Type 0 where
  free : Free u
  comm_handle : u.comm_handle ≡ w.comm_handle
  is_init : u.is_init ≡ w.is_init
  op_mode : u.spp.op_mode ≡ w.spp.op_mode

Shows-Kept :
    (v : View) (w u : World)
    → Kept w u
    → (v ≡ fresh → registered u.trace ≡ registered w.trace)
    → Shows v w
    → Shows v u
Shows-Kept fresh w u k e h = (k.free, k.comm_handle ∙ h.1, e refl ∙ h.2)
Shows-Kept ready w u k e h = (k.free, k.comm_handle ∙ h.1, k.is_init ∙ h.2, k.op_mode ∙ h.3)
Shows-Kept opened w u k e h =
    (k.free, (λ c. h.1 (sym k.comm_handle ∙ c)), k.is_init ∙ h.2, k.op_mode ∙ h.3)

Shows-Free : (v : View) (w : World) → Shows v w → Free w
Shows-Free fresh w h = h.0
Shows-Free ready w h = h.0
Shows-Free opened w h = h.0

-- The object after `init` has stored the properties.
abbrev stored : SpProp → Option ℕ → World → World
stored spp r w = record w {
  param = record w.param {
    spp = spp;
    thread = record w.thread { precv_data = elim r [ none ↦ w.precv_data | some x ↦ some x ] };
    is_init = true;
  };
}

stored-Shows :
    (spp : SpProp) (r : Option ℕ) (c : ℤ) (v : View) (w u : World)
    → eq_ℤ (pos 0) c ≡ true
    → spp.op_mode ≡ mode_async
    → Shows v w
    → Started (stored spp r w) u
    → Shows (after_init c v) u
stored-Shows spp r c fresh w u e a h k =
    rw e (k.mutex_recv ∙ h.0, k.comm_handle ∙ h.1, k.is_init, ap (λ p. p.op_mode) k.spp ∙ a)
stored-Shows spp r c ready w u e a h k =
    (k.mutex_recv ∙ h.0, k.comm_handle ∙ h.1, k.is_init, ap (λ p. p.op_mode) k.spp ∙ a)
stored-Shows spp r c opened w u e a h k = (
  k.mutex_recv ∙ h.0,
  (λ q. h.1 (sym k.comm_handle ∙ q)),
  k.is_init,
  ap (λ p. p.op_mode) k.spp ∙ a,
)

name_free : (v : View) (w : World) → Shows v w → v ≡ fresh → registered w.trace ≡ false
name_free fresh w h e = h.2
name_free ready w h e = cc
name_free opened w h e = cc

after_init-refused : (c : ℤ) (v : View) → eq_ℤ (pos 0) c ≡ false → v ≡ after_init c v
after_init-refused c fresh e = rw e refl
after_init-refused c ready e = refl
after_init-refused c opened e = refl

init-Shows :
    (os : Os)
    → MakesLoggers os
    → (spp : SpProp) (r : Option ℕ) (v : View) (w : World) → Permitted os_is_win (op_init spp r) v
    → Shows v w
    → Ends (Step (op_init spp r) v) (λ _. ⊥) (init os spp r w)
unfolding init
init-Shows os makes spp r v w (a, l, n) h =
    let c = is_right (get_instance os_is_win) spp in
    let free : (registered w.trace ≡ false) ⊎ (spp.is_to_log ≡ false) = elim l [
      | inl e ↦ inl (name_free v w h e)
      | inr e ↦ inr e
    ] in
    Ends-if (Step (op_init spp r) v) (λ _. ⊥) (not (eq_ℤ (pos 0) c)) _ _ w
      (λ e. (v, (refl, after_init-refused c v (ground arith)), h))
      (λ e.
        Ends-bind (λ _. Started (stored spp r w)) (Step (op_init spp r) v) (λ _. ⊥) (start_log os) _
          (stored spp r w) (start_log-Started os (stored spp r w) makes free)
          (λ _ u k.
            (after_init c v, (refl, refl), stored-Shows spp r c v w u (ground arith) a h k)))

nonzero : (c : ℤ) → eq_ℤ (pos 0) c ≡ false → c ≢ pos 0
nonzero (pos n) e = ground arith
nonzero (negsuc n) e = ground arith

shut : (h : ℕ) → ¬ (h ≢ invalid_handle_value) → h ≡ invalid_handle_value
shut h n = ground arith

is_opened-Shows : (v : View) (w : World) → Shows v w → is_opened w ≡ returned (is_open v) w
unfolding is_opened
is_opened-Shows fresh w h = ground arith
is_opened-Shows ready w h = ground arith
is_opened-Shows opened w h = ground arith

module _ (os : Os) where
  open_port-Shows :
      (w : World) → Shows ready w → Ends (Step op_open ready) (λ _. ⊥) (open_port os w)
  open_port-Shows w h =
      Ends-weaken (Answered os w) (Step op_open ready) (open_port os w)
        (open_port-Answered os w h.0 h.2)
        (λ c u a. elim (Bool-cases (eq_ℤ (pos 0) c)) [
          | inl z ↦ (
            opened,
            inl (sym (eq_ℤ→eq (pos 0) c z), refl),
            (
              a.2,
              a.0.0 (sym (eq_ℤ→eq (pos 0) c z)),
              a.3.is_init ∙ h.2,
              ap (λ p. p.op_mode) a.3.spp ∙ h.3,
            ),
          )
          | inr z ↦ (
            ready,
            inr (nonzero c z, refl),
            (
              a.2,
              shut u.comm_handle (λ o. nonzero c z (a.0.1 o)),
              a.3.is_init ∙ h.2,
              ap (λ p. p.op_mode) a.3.spp ∙ h.3,
            ),
          )
        ])

  closed-code :
      (w : World) → w.comm_handle ≡ invalid_handle_value → close_port os w ≡ returned (minus 1) w
  unfolding close_port is_opened
  closed-code w e = ground arith

  close_port-Shows :
      (v : View) (w : World) → Shows v w → Ends (Step op_close v) (λ _. ⊥) (close_port os w)
  close_port-Shows fresh w h = rw (closed-code w h.1) (fresh, (refl, refl), h)
  close_port-Shows ready w h = rw (closed-code w h.1) (ready, (refl, refl), h)
  close_port-Shows opened w h =
      Ends-weaken (λ c u. (c ≡ pos 0) × Closed w u) (Step op_close opened) (close_port os w)
        (close_port-Closed os w h.0 h.1)
        (λ c u a. (
          ready,
          (a.0, refl),
          (a.1.free, a.1.no_device, a.1.same.is_init ∙ h.2, ap (λ p. p.op_mode) a.1.same.spp ∙ h.3),
        ))

  destroy-closed : (w : World) → w.comm_handle ≡ invalid_handle_value → destroy os w ≡ returned tt w
  unfolding destroy is_opened
  destroy-closed w e = ground arith

  abbrev After : World → ℤ → World → Type 0
  After w c u = (c ≡ pos 0) × Closed w u

  Closed-ready : (w u : World) → Shows opened w → Closed w u → Shows ready u
  Closed-ready w u h c =
      (c.free, c.no_device, c.same.is_init ∙ h.2, ap (λ p. p.op_mode) c.same.spp ∙ h.3)

  stop_log-Shows : (w : World) → Shows ready w → Ends (λ _. Shows ready) (λ _. ⊥) (stop_log os w)
  unfolding stop_log
  stop_log-Shows w h = ground (arith, h.0, h.1, h.2, h.3)

  destroy-Shows :
      (v : View) (w : World)
      → Shows v w
      → Ends (λ _ u. Shows (after_close v) u) (λ _. ⊥) (destroy os w)
  unfolding destroy is_opened
  destroy-Shows fresh w h = rw (destroy-closed w h.1) h
  destroy-Shows ready w h = rw (destroy-closed w h.1) h
  destroy-Shows opened w h =
      Ends-if (λ _. Shows ready) (λ _. ⊥) (not (invalid_handle_value == w.comm_handle)) _ _ w
        (λ _.
          Ends-bind (After w) (λ _. Shows ready) (λ _. ⊥) (close_port os) _ w
            (close_port-Closed os w h.0 h.1) (λ c u a. stop_log-Shows u (Closed-ready w u h a.1)))
        (λ e. ground arith)

  send_data :
      (d : List ℕ) (n : ℕ) (v : View) (w : World)
      → n ≢ 0
      → v ≡ opened
      → Shows v w
      → Ends (Step (op_send (some d) n) v) (λ _. ⊥) (send os (some d) n w)
  send_data d n fresh w nz e h = ground arith
  send_data d n ready w nz e h = ground arith
  send_data d n opened w nz e h =
      Ends-weaken (λ _. SentAsync w) (Step (op_send (some d) n) opened) (send os (some d) n w)
        (send-async_leaks os d n w nz h.1 h.0 h.3)
        (λ c u s. (
          opened,
          ((λ z. elim (nz z) [ ]), refl),
          Shows-Kept opened w u
              (record {
                free = s.free;
                comm_handle = s.comm_handle;
                is_init = s.same.is_init;
                op_mode = ap (λ p. p.op_mode) s.same.spp;
              })
              (λ e. cc) h,
        ))

  send-Shows :
      (d : Option (List ℕ)) (n : ℕ) (v : View) (w : World)
      → Permitted os_is_win (op_send d n) v
      → Shows v w
      → Ends (Step (op_send d n) v) (λ _. ⊥) (send os d n w)
  unfolding send
  send-Shows none n v w p h = (v, (refl, refl), h)
  send-Shows (some d) zero v w p h = (v, ((λ _. refl), refl), h)
  send-Shows (some d) (suc n) v w p h =
      send_data d (suc n) v w (λ e. ground arith) (p (λ e. ground arith)) h

  pub call-Shows :
      MakesLoggers os
      → (before : World) (c : CommInfoWin) (ports : List SpNameDesc) (o : Op) (v : View) (w : World)
      → Permitted os_is_win o v
      → Shows v w
      → Ends (Step o v) (λ _. ⊥) (call (win_port os before c ports) o w)
  unfolding call set_read_notify
  call-Shows makes before c ports (op_init spp r) v w p h = init-Shows os makes spp r v w p h
  call-Shows makes before c ports op_open fresh w p h = ground arith
  call-Shows makes before c ports op_open ready w p h = open_port-Shows w h
  call-Shows makes before c ports op_open opened w p h = ground arith
  call-Shows makes before c ports op_close v w p h = close_port-Shows v w h
  call-Shows makes before c ports (op_set_read_notify n) v w p h = (
    v,
    (refl, refl),
    Shows-Kept v w
        (record w {
          param = record w.param {
            comm_info = record w.comm_info { min_bytes_read_notify = if 0 == n then 1 else n };
          };
        })
        (record { free = Shows-Free v w h; comm_handle = refl; is_init = refl; op_mode = refl })
        (λ _. refl) h,
  )
  call-Shows makes before c ports (op_send d n) v w p h = send-Shows d n v w p h

  -- The Windows port refines the abstract port, whatever the system answers, if a logger can be
  -- made while its name is free, and the name is free when the object is created.
  pub win_port-Refines :
      MakesLoggers os
      → (before : World) (c : CommInfoWin) (ports : List SpNameDesc)
      → registered before.trace ≡ false
      → Refines os_is_win (win_port os before c ports)
  unfolding new registered
  win_port-Refines makes before c ports free = record {
    Shows = Shows;
    shows_create = (refl, refl, free);
    shows_call = call-Shows makes before c ports;
    shows_is_opened = is_opened-Shows;
    shows_destroy = destroy-Shows;
  }
