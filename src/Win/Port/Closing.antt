-- ===== src/Win/Port/Closing.antt =====
-- What `close` does on Windows, and what it leaves alone.
use lib_sp.Base.{refl, ◌∙◌, Bool-cases, inl, inr, ℕ, ℤ, ◌≡◌, ◌≢◌, ◌==◌, true, false, pos, arith}
use lib_sp.Effect.{Ends, Ends-bind, Ends-weaken}
use lib_sp.Win.State.{invalid_handle_value}
use lib_sp.Win.Os.{Os, World}
use lib_sp.Win.Port.{
  close_port, is_opened, stop_thread_monitor, set_recv_thread_is_running, lock, unlock, release,
}

abbrev pub Opened : World → Type 0
Opened w = w.comm_handle ≢ invalid_handle_value

abbrev pub Free : World → Type 0
Free w = w.mutex_recv ≡ false

-- What no call but `init` and `open` changes, and what only the receiving thread does.
pub record Same (w w' : World) : Type 0 where
  pub spp : w'.spp ≡ w.spp
  pub is_init : w'.is_init ≡ w.is_init
  pub precv_data : w'.precv_data ≡ w.precv_data
  pub delivered : w'.delivered ≡ w.delivered

-- After `stop_thread_monitor` the thread is gone, and the device is as it was.
record Stopped (w w' : World) : Type 0 where
  comm_handle : w'.comm_handle ≡ w.comm_handle
  not_running : w'.is_running ≡ false
  no_thread : w'.thread_handle ≡ invalid_handle_value
  free : Free w'
  same : Same w w'

pub record Closed (w w' : World) : Type 0 where
  pub no_device : w'.comm_handle ≡ invalid_handle_value
  pub not_running : w'.is_running ≡ false
  pub no_thread : w'.thread_handle ≡ invalid_handle_value
  pub free : Free w'
  pub same : Same w w'

pub Same-refl : (w : World) → Same w w
Same-refl w = record { spp = refl; is_init = refl; precv_data = refl; delivered = refl }

pub Same-trans : {u v w : World} → Same u v → Same v w → Same u w
Same-trans a b = record {
  spp = b.spp ∙ a.spp;
  is_init = b.is_init ∙ a.is_init;
  precv_data = b.precv_data ∙ a.precv_data;
  delivered = b.delivered ∙ a.delivered;
}

abbrev pub Shut : World → ℤ → World → Type 0
Shut w r v = Free v × Same w v × (v.comm_handle ≡ invalid_handle_value)

module _ (os : Os) where
  valid : (h : ℕ) → h ≢ invalid_handle_value → (invalid_handle_value == h) ≡ false
  valid h o = ground arith

  stop_thread_monitor-Stopped :
      (w : World) → Free w → Ends (λ _. Stopped w) (λ _. ⊥) (stop_thread_monitor os w)
  unfolding stop_thread_monitor set_recv_thread_is_running lock unlock
  stop_thread_monitor-Stopped w f = ground arith

  release-Closed : (w u : World) → Stopped w u → Ends (λ _. Closed w) (λ _. ⊥) (release os u)
  unfolding release
  release-Closed w u s = ground arith

  -- `close` of an open port returns 0, and leaves neither a device nor a thread, the flag clear and
  -- the mutex free.
  pub close_port-Closed :
      (w : World)
      → Free w
      → Opened w
      → Ends (λ r w'. (r ≡ pos 0) × Closed w w') (λ _. ⊥) (close_port os w)
  unfolding close_port is_opened
  close_port-Closed w f o = rw (valid w.comm_handle o) (
      Ends-bind (λ _. Stopped w) _ (λ _. ⊥) (stop_thread_monitor os) _ w
        (stop_thread_monitor-Stopped w f)
        (λ _ u s.
          Ends-bind (λ _. Closed w) _ (λ _. ⊥) (release os) _ u (release-Closed w u s)
            (λ _ v c. ground arith)))

  closed-Shut :
      (w v : World)
      → Free v
      → Same w v
      → (invalid_handle_value == v.comm_handle) ≡ true
      → Ends
          (λ _ u. Free u × Same w u × (u.comm_handle ≡ invalid_handle_value))
          (λ _. ⊥)
          (close_port os v)
  unfolding close_port is_opened
  closed-Shut w v f s c = rw c (f, s, ground arith)

  pub close_port-Shut : (w v : World) → Free v → Same w v → Ends (Shut w) (λ _. ⊥) (close_port os v)
  close_port-Shut w v f s = elim (Bool-cases (invalid_handle_value == v.comm_handle)) [
    | inl shut ↦ closed-Shut w v f s shut
    | inr opened ↦
        Ends-weaken (λ r u. (r ≡ pos 0) × Closed v u) (Shut w) (close_port os v)
          (close_port-Closed v f (λ e. ground arith))
          (λ r u c. (c.1.free, Same-trans s c.1.same, c.1.no_device))
  ]
