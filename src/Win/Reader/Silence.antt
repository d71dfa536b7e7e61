-- ===== src/Win/Reader/Silence.antt =====
-- What the receiving loop hands to the receiver on Windows.
use lib_sp.Base.{leb, ap, ◌∷◌, take, ℕ, zero, suc, ◌≡◌, refl, ◌∙◌, ◌==◌, not, List, arith}
use lib_sp.Effect.{pure, Ends, Ends-bind, Ends-if}
use lib_sp.Params.Enums.{mode_async}
use lib_sp.Win.Port.Send.{cleared}
use lib_sp.Win.State.{invalid_handle_value}
use lib_sp.Win.Os.{
  Os, World, Call, Event, event, call_reset_event, call_wait_for_single_object,
  call_wait_comm_event, call_get_overlapped_result, call_clear_comm_error, call_read_file,
  call_create_event,
}
use lib_sp.Win.Port.{lock, unlock, get_recv_thread_is_running, succeeded}
use lib_sp.Win.Reader.{
  follow, wait_object_0, test_bit, ev_rxchar, ev_txempty, infinite, stored_or, read_async,
  read_sync, read_locked, finish_read, get_max_size, read_data, receive, on_rxchar, on_txempty,
  handle_event, round, rounds, thread_recv_data_monitor, goes_on, exits,
}

-- `ReadFile` fails on the handle of no device, which is how Windows answers an invalid handle.
abbrev pub RefusesInvalid : Os → Type 0
RefusesInvalid os =
    (t : List Event) (count : ℕ) → os.result t (call_read_file invalid_handle_value count) ≡ 0

abbrev Quiet : World → World → Type 0
Quiet w u = u.delivered ≡ w.delivered

-- Besides, there is no device.
abbrev Gone : World → World → Type 0
Gone w u = Quiet w u × (u.comm_handle ≡ invalid_handle_value)

module _ (os : Os) (refuses : RefusesInvalid os) where
  get_max_size-Gone : (w u : World) → Gone w u → Ends (λ _. Gone w) (Quiet w) (get_max_size os u)
  unfolding get_max_size
  get_max_size-Gone w u g = ground arith

  finish_read-Quiet :
      (e : ℕ) (d : List ℕ) (c : ℕ) (w u : World)
      → Quiet w u
      → Ends (λ _. Quiet w) (Quiet w) (finish_read os 0 e d c u)
  unfolding finish_read
  finish_read-Quiet e d c w u q = ground arith

  read_sync-Quiet :
      (m : ℕ) (w u : World) → Gone w u → Ends (λ _. Quiet w) (Quiet w) (read_sync os m u)
  unfolding read_sync
  read_sync-Quiet m w u g = rw (g.1, refuses u.trace m) g.0

  abbrev after_event : World → World
  after_event u =
      let h = os.result u.trace call_create_event in
      record u {
        param = record u.param { comm_info = record u.comm_info { over_lapped_read = cleared h } };
        trace = event call_create_event h ∷ u.trace;
      }

  abbrev after : Call → World → World
  after c v = record v { trace = event c (os.result v.trace c) ∷ v.trace }

  read_nothing :
      (m : ℕ) (v : World)
      → v.comm_handle ≡ invalid_handle_value
      → os.result v.trace (call_read_file v.comm_handle m) ≡ 0
  read_nothing m v c = ap (λ h. os.result v.trace (call_read_file h m)) c ∙ refuses v.trace m

  finish_read-Quiet' :
      (r e : ℕ) (d : List ℕ) (c : ℕ) (w u : World)
      → r ≡ 0
      → Quiet w u
      → Ends (λ _. Quiet w) (Quiet w) (finish_read os r e d c u)
  unfolding finish_read
  finish_read-Quiet' r e d c w u z q = ground arith

  read_async-Quiet :
      (m : ℕ) (w u : World) → Gone w u → Ends (λ _. Quiet w) (Quiet w) (read_async os m u)
  unfolding read_async
  read_async-Quiet m w u g =
      let v = after (call_read_file u.comm_handle m) (after_event u) in
      Ends-bind (λ _. Quiet w) (λ _. Quiet w) (Quiet w)
        (finish_read os (os.result (after_event u).trace (call_read_file u.comm_handle m))
          (os.last_error v.trace) (take (os.transferred v.trace) (os.bytes v.trace))
          (os.transferred v.trace))
        _ v (finish_read-Quiet' _ _ _ _ w v (read_nothing m (after_event u) g.1) g.0) (λ _ x q. q)

  read_locked-Quiet :
      (m : ℕ) (w u : World) → Gone w u → Ends (λ _. Quiet w) (Quiet w) (read_locked os m u)
  unfolding read_locked
  read_locked-Quiet m w u g =
      Ends-if (λ _. Quiet w) (Quiet w) (mode_async == u.spp.op_mode) _ _ u
        (λ _. read_async-Quiet m w u g) (λ _. read_sync-Quiet m w u g)

  lock-Gone : (w u : World) → Gone w u → Ends (λ _. Gone w) (Quiet w) (lock u)
  unfolding lock
  lock-Gone w u g = ground arith

  read_data-Quiet : (w u : World) → Quiet w u → Ends (λ _. Quiet w) (Quiet w) (read_data os u)
  unfolding read_data unlock
  read_data-Quiet w u q =
      Ends-if (λ _. Quiet w) (Quiet w) (not (invalid_handle_value == u.comm_handle)) _ _ u (λ _. q)
        (λ e.
          Ends-bind (λ _. Gone w) (λ _. Quiet w) (Quiet w) (get_max_size os) _ u
            (get_max_size-Gone w u (q, ground arith))
            (λ m v g.
              Ends-bind (λ _. Gone w) (λ _. Quiet w) (Quiet w) lock _ v (lock-Gone w v g)
                (λ _ x k.
                  Ends-bind (λ _. Quiet w) (λ _. Quiet w) (Quiet w) (read_locked os m) _ x
                    (read_locked-Quiet m w x k) (λ _ y z. z))))

  receive-Quiet : (w u : World) → Quiet w u → Ends (λ _. Quiet w) (Quiet w) (receive os u)
  unfolding receive
  receive-Quiet w u q =
      Ends-if (λ _. Quiet w) (Quiet w)
        (leb u.min_bytes_read_notify
          (os.cb_in_que (after (call_clear_comm_error u.comm_handle) u).trace))
        _ _ (after (call_clear_comm_error u.comm_handle) u)
        (λ _.
          Ends-bind (λ _. Quiet w) (λ _. Quiet w) (Quiet w) (read_data os) _
            (after (call_clear_comm_error u.comm_handle) u)
            (read_data-Quiet w (after (call_clear_comm_error u.comm_handle) u) q) (λ _ x z. z))
        (λ _. q)

  on_rxchar-Quiet :
      (m : ℕ) (w u : World) → Quiet w u → Ends (λ _. Quiet w) (Quiet w) (on_rxchar os m u)
  unfolding on_rxchar
  on_rxchar-Quiet m w u q =
      Ends-if (λ _. Quiet w) (Quiet w) (test_bit ev_rxchar m) (receive os) (pure tt) u
        (λ _. receive-Quiet w u q) (λ _. q)

  on_txempty-Quiet :
      (m : ℕ) (w u : World) → Quiet w u → Ends (λ _. Quiet w) (Quiet w) (on_txempty os m u)
  unfolding on_txempty
  on_txempty-Quiet m w u q =
      Ends-if (λ _. Quiet w) (Quiet w) (test_bit ev_txempty m) _ _ u (λ _. q) (λ _. q)

  handle_event-Quiet :
      (m : ℕ) (w u : World) → Quiet w u → Ends (λ _. Quiet w) (Quiet w) (handle_event os m u)
  unfolding handle_event
  handle_event-Quiet m w u q =
      let c = call_get_overlapped_result u.comm_handle in
      Ends-if (λ _. Quiet w) (Quiet w) (not (succeeded (os.result u.trace c))) _ _ (after c u)
        (λ _. q)
        (λ _.
          Ends-bind (λ _. Quiet w) (λ _. Quiet w) (Quiet w) (on_rxchar os m) _ (after c u)
            (on_rxchar-Quiet m w (after c u) q)
            (λ _ v z.
              Ends-bind (λ _. Quiet w) (λ _. Quiet w) (Quiet w) (on_txempty os m) _ v
                (on_txempty-Quiet m w v z) (λ _ x y. y)))

  round-Quiet : (m : ℕ) (w u : World) → Quiet w u → Ends (λ _. Quiet w) (Quiet w) (round os m u)
  unfolding round
  round-Quiet m w u q =
      let v =
        after (call_wait_for_single_object u.over_lapped_monitor.h_event infinite)
          (after (call_wait_comm_event u.comm_handle) u) in
      let now = stored_or m (os.event_mask v.trace) in
      let waited =
        os.result (after (call_wait_comm_event u.comm_handle) u).trace
          (call_wait_for_single_object u.over_lapped_monitor.h_event infinite) in
      Ends-if (λ _. Quiet w) (Quiet w) (waited == wait_object_0) (handle_event os now)
        (pure (goes_on now)) v (λ _. handle_event-Quiet now w v q) (λ _. q)

  is_running-Quiet :
      (w u : World) → Quiet w u → Ends (λ _. Quiet w) (Quiet w) (get_recv_thread_is_running u)
  unfolding get_recv_thread_is_running lock unlock
  is_running-Quiet w u q = ground arith

  rounds-Quiet :
      (n m : ℕ) (w u : World) → Quiet w u → Ends (λ _. Quiet w) (Quiet w) (rounds os n m u)
  unfolding rounds
  rounds-Quiet zero m w u q = q
  rounds-Quiet (suc n) m w u q =
      Ends-bind (λ _. Quiet w) (λ _. Quiet w) (Quiet w) get_recv_thread_is_running _ u
        (is_running-Quiet w u q)
        (λ b v z.
          Ends-if (λ _. Quiet w) (Quiet w) (not b) _ _ v (λ _. z)
            (λ _.
              Ends-bind (λ _. Quiet w) (λ _. Quiet w) (Quiet w) (round os m) _ v
                (round-Quiet m w v z)
                (λ l x y.
                  elim l as (λ j. Ends (λ _. Quiet w) (Quiet w) (follow (rounds os n) j x)) [
                    | goes_on k ↦ rounds-Quiet n k w x y
                    | exits c ↦ y
                  ])))

  -- Where `ReadFile` fails on the handle of no device, the receiving thread, run without another
  -- thread, hands nothing to the receiver, for any number of rounds and whatever the device holds.
  pub thread_recv_data_monitor-Quiet :
      (n : ℕ) (w : World) → Ends (λ _. Quiet w) (Quiet w) (thread_recv_data_monitor os n w)
  unfolding thread_recv_data_monitor
  thread_recv_data_monitor-Quiet n w =
      Ends-if (λ _. Quiet w) (Quiet w) (invalid_handle_value == w.comm_handle) _ _ w (λ _. refl)
        (λ _. rounds-Quiet n 0 w (after (call_reset_event w.comm_handle) w) refl)
