-- ===== src/Win/Port/Frame.antt =====
-- What a property of the calls made so far needs, to be kept by `open`, `close` and their parts.
use lib_sp.Base.{ℕ, ◌≡◌, refl, Bool, true, false, not, List, ◌∷◌, ℤ, pos, minus, eq_ℤ, ◌==◌, arith}
use lib_sp.Effect.{pure, Ends, Ends-bind, Ends-if}
use lib_sp.Win.State.{invalid_handle_value}
use lib_sp.Win.Os.{
  Os, World, Call, Event, event, call_rotating_logger, call_shutdown, call_write_file,
}
use lib_sp.Win.Port.{
  lock, unlock, is_opened, set_recv_thread_is_running, stop_thread_monitor, release, close_port,
  set_flow_ctl, start_thread_monitor,
}
use lib_sp.Win.Port.Open.{
  watch, configure_device, fill_dcb, set_up, open_device, refused, finish, prepare,
  flags_attributes, open_port,
}
use lib_sp.Win.Port.Opening.{attempt, prepared, after_create}

-- The calls that are neither about the logger nor a write.
abbrev pub is_inner : Call → Bool
is_inner call_rotating_logger = false
is_inner call_shutdown = false
is_inner (call_write_file handle d) = false
is_inner _ = true

module _ (os : Os) (I : List Event → Type 0)
    (keeps : (c : Call) (r : ℕ) (t : List Event)
      → is_inner c ≡ true
      → I t
      → I (event c r ∷ t)) where
  abbrev Kept : World → Type 0
  Kept w = I w.trace

  stop_thread_monitor-Kept : (w : World) → Kept w → Ends (λ _. Kept) Kept (stop_thread_monitor os w)
  unfolding stop_thread_monitor set_recv_thread_is_running lock unlock
  stop_thread_monitor-Kept w h = grind (arith, keeps)

  release-Kept : (w : World) → Kept w → Ends (λ _. Kept) Kept (release os w)
  unfolding release
  release-Kept w h = grind (arith, keeps)

  -- `close`
  pub close_port-Kept : (w : World) → Kept w → Ends (λ _. Kept) Kept (close_port os w)
  unfolding close_port is_opened
  close_port-Kept w h =
      Ends-if (λ _. Kept) Kept (not (not (invalid_handle_value == w.comm_handle))) _ _ w (λ _. h)
        (λ _.
          Ends-bind (λ _. Kept) (λ _. Kept) Kept (stop_thread_monitor os) _ w
            (stop_thread_monitor-Kept w h)
            (λ _ u k.
              Ends-bind (λ _. Kept) (λ _. Kept) Kept (release os) _ u (release-Kept u k)
                (λ _ v m. keeps _ _ _ refl m)))

  set_flow_ctl-Kept : (fc : ℕ) (w : World) → Kept w → Ends (λ _. Kept) Kept (set_flow_ctl os fc w)
  unfolding set_flow_ctl is_opened
  set_flow_ctl-Kept fc w h = grind (arith, keeps)

  watch-Kept : (w : World) → Kept w → Ends (λ _. Kept) Kept (watch os w)
  unfolding watch start_thread_monitor
  watch-Kept w h = grind (arith, keeps)

  configure_device-Kept : (w : World) → Kept w → Ends (λ _. Kept) Kept (configure_device os w)
  unfolding configure_device fill_dcb
  configure_device-Kept w h =
      Ends-bind (λ _. Kept) (λ _. Kept) Kept (fill_dcb os) _ w
        (keeps _ _ _ refl (keeps _ _ _ refl h)) (λ _ u k. set_flow_ctl-Kept u.spp.flow_ctl u k)

  set_up-Kept : (w : World) → Kept w → Ends (λ _. Kept) Kept (set_up os w)
  unfolding set_up watch start_thread_monitor
  set_up-Kept w h =
      Ends-bind (λ _. Kept) (λ _. Kept) Kept (configure_device os) _ w (configure_device-Kept w h)
        (λ _ u k. grind (arith, keeps))

  open_device-Kept :
      (flags : ℕ) (w : World) → Kept w → Ends (λ _. Kept) Kept (open_device os flags w)
  unfolding open_device refused
  open_device-Kept flags w h =
      let v = after_create os flags w in
      Ends-if (λ _. Kept) Kept (invalid_handle_value == v.comm_handle) (refused os) (set_up os) v
        (λ _. keeps _ _ _ refl h) (λ _. set_up-Kept v (keeps _ _ _ refl h))

  finish-Kept : (r : ℤ) (w : World) → Kept w → Ends (λ _. Kept) Kept (finish os r w)
  unfolding finish
  finish-Kept r w h =
      Ends-if (λ _. Kept) Kept (eq_ℤ (pos 0) r) _ _ w (λ _. h)
        (λ _.
          Ends-bind (λ _. Kept) (λ _. Kept) Kept (close_port os) _ w (close_port-Kept w h)
            (λ _ u k. k))

  -- `open`
  pub open_port-Kept : (w : World) → Kept w → Ends (λ _. Kept) Kept (open_port os w)
  unfolding open_port prepare is_opened
  open_port-Kept w h =
      Ends-if (λ _. Kept) Kept (not w.is_init) _ _ w (λ _. h)
        (λ _.
          Ends-bind (λ _. Kept) (λ _. Kept) Kept (attempt os w) (finish os) (prepared os w)
            (Ends-if (λ _. Kept) Kept (not (not (invalid_handle_value == w.comm_handle)))
              (open_device os (flags_attributes w.spp.op_mode)) (pure (minus 5)) (prepared os w)
              (λ _. open_device-Kept (flags_attributes w.spp.op_mode) (prepared os w) h) (λ _. h))
            (λ r u k. finish-Kept r u k))
