-- ===== src/Win/Port/Opening.antt =====
-- What `open` and `close` report on Windows.
use lib_sp.Base.{
  not, if◌then◌else◌, ◌++◌, ◌∷◌, eq_ℤ, eq_ℤ→eq, refl, sym, ◌∙◌, ℕ, ℤ, ◌≡◌, ◌↔◌, ◌==◌, true, pos,
  minus, arith,
}
use lib_sp.Effect.{pure, Ends, Ends-bind, Ends-if, Ends-weaken}
use lib_sp.Win.State.{invalid_handle_value}
use lib_sp.Win.Os.{Os, World, M, call_create_file, event}
use lib_sp.Win.Port.{close_port, is_opened, set_flow_ctl, start_thread_monitor}
use lib_sp.Win.Port.Open.{
  open_port, set_up, open_device, watch, configure_device, flags_attributes, finish,
  sizeof_comm_config, name_prefix, fill_dcb, generic_read_write, refused, prepare,
}
use lib_sp.Win.Port.Closing.{Opened, Free, Same, Same-refl, Same-trans, Shut, close_port-Shut}

-- A part of `open` that leaves the device's handle and the mutex alone.
pub record Kept (w w' : World) : Type 0 where
  pub comm_handle : w'.comm_handle ≡ w.comm_handle
  pub mutex : w'.mutex_recv ≡ w.mutex_recv
  pub same : Same w w'

-- The code of a part of `open` that may have opened the device.
abbrev Reports : World → ℤ → World → Type 0
Reports w r v = Free v × Same w v × ((r ≡ pos 0) → Opened v)

module _ (os : Os) where
  set_flow_ctl-Kept :
      (fc : ℕ) (w u : World) → Kept w u → Ends (λ _. Kept w) (λ _. ⊥) (set_flow_ctl os fc u)
  unfolding set_flow_ctl is_opened
  set_flow_ctl-Kept fc w u k = ground arith

  fill_dcb-Kept : (w u : World) → Kept w u → Ends (λ _. Kept w) (λ _. ⊥) (fill_dcb os u)
  unfolding fill_dcb
  fill_dcb-Kept w u k = ground arith

  pub configure_device-Kept :
      (w u : World) → Kept w u → Ends (λ _. Kept w) (λ _. ⊥) (configure_device os u)
  unfolding configure_device
  configure_device-Kept w u k =
      Ends-bind (λ _. Kept w) (λ _. Kept w) (λ _. ⊥) (fill_dcb os) _ u (fill_dcb-Kept w u k)
        (λ _ v l. set_flow_ctl-Kept v.spp.flow_ctl w v l)

  watch-Kept : (w u : World) → Kept w u → Ends (λ _. Kept w) (λ _. ⊥) (watch os u)
  unfolding watch start_thread_monitor
  watch-Kept w u k = ground arith

  pub set_up-Kept : (w u : World) → Kept w u → Ends (λ _. Kept w) (λ _. ⊥) (set_up os u)
  unfolding set_up watch start_thread_monitor
  set_up-Kept w u k =
      Ends-bind (λ _. Kept w) (λ _. Kept w) (λ _. ⊥) (configure_device os) _ u
        (configure_device-Kept w u k) (λ _ v l. ground arith)

  set_up-Reports :
      (w v : World) → Free v → Same w v → Opened v → Ends (Reports w) (λ _. ⊥) (set_up os v)
  set_up-Reports w v f s o =
      Ends-weaken (λ _. Kept v) (Reports w) (set_up os v)
        (set_up-Kept v v (record { comm_handle = refl; mutex = refl; same = Same-refl v }))
        (λ r u k. (k.mutex ∙ f, Same-trans s k.same, λ _ e. o (sym k.comm_handle ∙ e)))

  refused-Reports : (w v : World) → Free v → Same w v → Ends (Reports w) (λ _. ⊥) (refused os v)
  unfolding refused
  refused-Reports w v f s = ground arith

  abbrev pub after_create : ℕ → World → World
  after_create flags u =
      let c = call_create_file u.spp.name generic_read_write flags in
      let h = os.result u.trace c in
      record u {
        param = record u.param { comm_info = record u.comm_info { comm_handle = h } };
        trace = event c h ∷ u.trace;
      }

  open_device-Reports :
      (flags : ℕ) (w u : World)
      → Free u
      → Same w u
      → Ends (Reports w) (λ _. ⊥) (open_device os flags u)
  unfolding open_device
  open_device-Reports flags w u f s =
      let v = after_create flags u in
      let same : Same w v = record {
        spp = s.spp;
        is_init = s.is_init;
        precv_data = s.precv_data;
        delivered = s.delivered;
      } in
      Ends-if (Reports w) (λ _. ⊥) (invalid_handle_value == v.comm_handle) (refused os) (set_up os)
        v (λ e. refused-Reports w v f same) (λ e. set_up-Reports w v f same (λ c. ground arith))

  -- The port is open exactly if the code is 0.
  abbrev Told : ℤ → World → ℤ → World → Type 0
  Told c w r v = (r ≡ c) × Free v × Same w v × ((r ≡ pos 0) ↔ Opened v)

  finish-Told : (r : ℤ) (w v : World) → Reports w r v → Ends (Told r w) (λ _. ⊥) (finish os r v)
  unfolding finish
  finish-Told r w v h =
      Ends-if (Told r w) (λ _. ⊥) (eq_ℤ (pos 0) r) (pure r) _ v
        (λ e. (refl, h.0, h.1, (h.2, λ _. sym (eq_ℤ→eq (pos 0) r e))))
        (λ e.
          Ends-bind (Shut w) (Told r w) (λ _. ⊥) (close_port os) _ v
            (close_port-Shut os w v h.0 h.1)
            (λ _ u k. (refl, k.0, k.1, (λ z. ground arith, λ o. elim (o k.2) [ ]))))

  -- The object that `open` works on, with the name that it has changed.
  abbrev pub prepared : World → World
  prepared w = record w {
    param = record w.param {
      spp = record w.spp { name = name_prefix ++ w.spp.name };
      comm_info = record w.comm_info { cfg = record w.cfg { dw_size = sizeof_comm_config } };
    };
  }

  abbrev Tried : World → ℤ → World → Type 0
  Tried w r v = Reports (prepared w) r v × (Opened w → r ≡ minus 5)

  abbrev pub Answered : World → ℤ → World → Type 0
  Answered w r v =
      ((r ≡ pos 0) ↔ Opened v) × (Opened w → r ≡ minus 5) × Free v × Same (prepared w) v

  abbrev pub attempt : World → M ℤ
  attempt w =
      if not (not (invalid_handle_value == w.comm_handle))
      then open_device os (flags_attributes w.spp.op_mode)
      else pure (minus 5)

  attempt-Tried : (w : World) → Free w → Ends (Tried w) (λ _. ⊥) (attempt w (prepared w))
  attempt-Tried w f =
      Ends-if (Tried w) (λ _. ⊥) (not (not (invalid_handle_value == w.comm_handle))) _ _
        (prepared w)
        (λ c.
          Ends-weaken (Reports (prepared w)) (Tried w)
            (open_device os (flags_attributes w.spp.op_mode) (prepared w))
            (open_device-Reports _ (prepared w) (prepared w) f (Same-refl (prepared w)))
            (λ r v h. (h, λ o. ground arith)))
        (λ o. ((f, Same-refl (prepared w), λ e. ground arith), λ _. refl))

  -- `open` of an initialised object with a free mutex always returns: its code is 0 exactly if the
  -- port is open afterwards. On a port that was open already it returns -5, so that the port ends up
  -- closed. The mutex is free again, and of the properties only the name has changed.
  pub open_port-Answered :
      (w : World) → Free w → w.is_init ≡ true → Ends (Answered w) (λ _. ⊥) (open_port os w)
  unfolding open_port prepare is_opened
  open_port-Answered w f i =
      Ends-if (Answered w) (λ _. ⊥) (not w.is_init) _ _ w (λ e. ground arith)
        (λ e.
          Ends-bind (Tried w) (Answered w) (λ _. ⊥) (attempt w) (finish os) (prepared w)
            (attempt-Tried w f)
            (λ r v h.
              Ends-weaken (Told r (prepared w)) (Answered w) (finish os r v)
                (finish-Told r (prepared w) v h.0) (λ _ u k. (k.3, λ o. k.0 ∙ h.1 o, k.1, k.2))))
