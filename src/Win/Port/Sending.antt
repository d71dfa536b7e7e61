-- ===== src/Win/Port/Sending.antt =====
-- What `send` reports on Windows in both modes.
use lib_sp.Base.{
  ℤ, to_signed, false, not, [], suc, List, ℕ, ◌≡◌, ◌≢◌, ◌∷◌, ◌==◌, some, true, minus, take, arith,
}
use lib_sp.Effect.{Ends, Ends-if}
use lib_sp.Params.Enums.{mode_async}
use lib_sp.Win.State.{invalid_handle_value}
use lib_sp.Win.Os.{Os, Event, World, call_close_handle, event, call_create_event, call_write_file}
use lib_sp.Win.Port.{unlock, is_opened}
use lib_sp.Win.Port.Send.{locking, send, send_async, send_sync, write_async, cleared}
use lib_sp.Win.Port.Closing.{Opened, Free, Same}

-- The events that a trace has made, and the handles that it has closed.
unfoldable pub events_made : List Event → ℕ
events_made [] = 0
events_made (event call_create_event r ∷ t) = suc (events_made t)
events_made (event c r ∷ t) = events_made t

unfoldable pub handles_closed : List Event → ℕ
handles_closed [] = 0
handles_closed (event (call_close_handle h) r ∷ t) = suc (handles_closed t)
handles_closed (event c r ∷ t) = handles_closed t

-- One event was made and nothing closed; the mutex is free, and the device, the thread and what was
-- handed on are as they were.
pub record SentAsync (w w' : World) : Type 0 where
  pub made : events_made w'.trace ≡ suc (events_made w.trace)
  pub closed : handles_closed w'.trace ≡ handles_closed w.trace
  pub free : Free w'
  pub comm_handle : w'.comm_handle ≡ w.comm_handle
  pub same_thread : w'.thread_handle ≡ w.thread_handle
  pub same_flag : w'.is_running ≡ w.is_running
  pub same : Same w w'

module _ (os : Os) where
  -- On a closed port `send` returns -2 and leaves the object and the system alone.
  pub send-closed :
      (d : List ℕ) (n : ℕ) (w : World)
      → n ≢ 0
      → w.comm_handle ≡ invalid_handle_value
      → Ends (λ r w'. (r ≡ minus 2) × (w' ≡ w)) (λ _. ⊥) (send os (some d) n w)
  unfolding send is_opened
  send-closed d n w some_data closed = ground arith

  -- One `WriteFile` of the first `n` bytes was made, and the mutex is held.
  abbrev pub KeepsMutex : List ℕ → ℕ → World → World → Type 0
  KeepsMutex d n w u =
      let c = call_write_file w.comm_handle (take n d) in
      (u.trace ≡ event c (os.result w.trace c) ∷ w.trace) × (u.mutex_recv ≡ true)

  -- In the synchronous mode `send` of data on an open port makes one `WriteFile` of the first `n`
  -- bytes and then locks the mutex that it holds. What that does is not defined: where it throws,
  -- `send` returns the code of `GetLastError`, whether the write was done or not; otherwise the
  -- program does not go on. The mutex stays held in both cases.
  pub send-sync-KeepsMutex :
      (d : List ℕ) (n : ℕ) (w : World)
      → n ≢ 0
      → Opened w
      → Free w
      → w.spp.op_mode ≢ mode_async
      → Ends
          (λ r u.
            KeepsMutex d n w u
            × (os.relock_throws u.trace ≡ true)
            × (r ≡ to_signed 32 (os.last_error u.trace)))
          (λ u. KeepsMutex d n w u × (os.relock_throws u.trace ≡ false))
          (send os (some d) n w)
  unfolding send is_opened send_sync locking
  send-sync-KeepsMutex d n w some_data opened free sync = ground arith

  write_async-Sent :
      (d : List ℕ) (n : ℕ) (w u : World)
      → SentAsync w u
      → Ends (λ _. SentAsync w) (λ _. ⊥) (write_async os d n u)
  unfolding write_async locking unlock events_made handles_closed
  write_async-Sent d n w u h = ground arith

  abbrev pub after_event : World → World
  after_event w =
      let h = os.result w.trace call_create_event in
      record w {
        param = record w.param { comm_info = record w.comm_info { over_lapped_write = cleared h } };
        trace = event call_create_event h ∷ w.trace;
      }

  after_event-Sent : (w : World) → Free w → SentAsync w (after_event w)
  unfolding events_made handles_closed
  after_event-Sent w free = ground arith

  send_async-Sent :
      (d : List ℕ) (n : ℕ) (w : World)
      → Free w
      → Ends (λ _. SentAsync w) (λ _. ⊥) (send_async os d n w)
  unfolding send_async
  send_async-Sent d n w free = write_async-Sent d n w (after_event w) (after_event-Sent w free)

  -- `send` of data on an open port in the asynchronous mode is `send_async`.
  pub send-Opened :
      (P : ℤ → World → Type 0) (d : List ℕ) (n : ℕ) (w : World)
      → n ≢ 0
      → Opened w
      → w.spp.op_mode ≡ mode_async
      → Ends P (λ _. ⊥) (send_async os d n w)
      → Ends P (λ _. ⊥) (send os (some d) n w)
  unfolding send is_opened
  send-Opened P d n w some_data opened async h =
      Ends-if P (λ _. ⊥) (n == 0) _ _ w (λ e. ground arith)
        (λ _.
          Ends-if P (λ _. ⊥) (not (not (invalid_handle_value == w.comm_handle))) _ _ w
            (λ e. ground arith)
            (λ _.
              Ends-if P (λ _. ⊥) (mode_async == w.spp.op_mode) _ _ w (λ _. h) (λ e. ground arith)))

  -- In the asynchronous mode `send` of data on an open port returns, with the mutex free; each such
  -- call makes an event that nothing closes.
  pub send-async_leaks :
      (d : List ℕ) (n : ℕ) (w : World)
      → n ≢ 0
      → Opened w
      → Free w
      → w.spp.op_mode ≡ mode_async
      → Ends (λ _. SentAsync w) (λ _. ⊥) (send os (some d) n w)
  send-async_leaks d n w some_data opened free async =
      send-Opened (λ _. SentAsync w) d n w some_data opened async (send_async-Sent d n w free)
