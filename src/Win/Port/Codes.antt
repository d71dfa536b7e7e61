-- ===== src/Win/Port/Codes.antt =====
-- What a code of `send` on Windows tells, and what it does not.
use lib_sp.Base.{[], List, ℕ, ◌^◌, ◌<◌, ◌≡◌, ◌≢◌, ◌∷◌, Bool, some, true, false, pos, arith}
use lib_sp.Effect.{Ends}
use lib_sp.Params.Enums.{mode_async}
use lib_sp.Win.Os.{Os, Event, World, event, call_write_file, call_get_overlapped_result}
use lib_sp.Win.Port.{succeeded, unlock}
use lib_sp.Win.Port.Send.{locking, send, send_async, write_async, error_io_pending}
use lib_sp.Win.Port.Sending.{send-Opened}
use lib_sp.Win.Port.Closing.{Opened, Free}

-- Whether the newest write was done: at once, or as the wait for it tells.
unfoldable pub went_out : List Event → Bool
went_out [] = false
went_out (event (call_write_file handle d) r ∷ t) = succeeded r
went_out (event (call_get_overlapped_result handle) r ∷ t) = succeeded r
went_out (event c r ∷ t) = went_out t

-- A system on which a write is pending first, and is done when it is waited for.
abbrev pub finishing : Os → Os
finishing os = record os {
  result = λ t c. elim c [
    | call_write_file handle d ↦ 0
    | call_get_overlapped_result handle ↦ 1
    | other ↦ os.result t other
  ];
  last_error = λ _. error_io_pending;
}

-- A system on which a write fails with the error `n`.
abbrev pub failing : ℕ → Os → Os
failing n os = record os {
  result = λ t c. elim c [
    | call_write_file handle d ↦ 0
    | call_get_overlapped_result handle ↦ 0
    | other ↦ os.result t other
  ];
  last_error = λ _. n;
}

finishing-async :
    (os : Os) (d : List ℕ) (n : ℕ) (w : World)
    → n < 2 ^ 31
    → Free w
    → Ends
        (λ c w'. (c ≡ pos n) × (went_out w'.trace ≡ true))
        (λ _. ⊥)
        (send_async (finishing os) d n w)
unfolding send_async write_async locking unlock went_out
finishing-async os d n w small free = ground arith

failing-async :
    (os : Os) (d : List ℕ) (n : ℕ) (w : World)
    → n < 2 ^ 31
    → Free w
    → Ends
        (λ c w'. (c ≡ pos n) × (went_out w'.trace ≡ false))
        (λ _. ⊥)
        (send_async (failing n os) d n w)
unfolding send_async write_async locking unlock went_out
failing-async os d n w small free = ground arith

-- On an open port in the asynchronous mode a positive code of `send` does not tell whether the data
-- went out: for each length there is a system on which the write of that many bytes is done and one
-- on which it fails, and on both `send` returns the length.
pub code_ambiguous :
    (os : Os) (d : List ℕ) (n : ℕ) (w : World)
    → n ≢ 0
    → n < 2 ^ 31
    → Opened w
    → Free w
    → w.spp.op_mode ≡ mode_async
    → Ends
        (λ c w'. (c ≡ pos n) × (went_out w'.trace ≡ true))
        (λ _. ⊥)
        (send (finishing os) (some d) n w)
      × Ends
          (λ c w'. (c ≡ pos n) × (went_out w'.trace ≡ false))
          (λ _. ⊥)
          (send (failing n os) (some d) n w)
code_ambiguous os d n w some_data small opened free async = (
  send-Opened (finishing os) _ d n w some_data opened async (finishing-async os d n w small free),
  send-Opened (failing n os) _ d n w some_data opened async (failing-async os d n w small free),
)
