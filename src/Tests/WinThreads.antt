-- ===== src/Tests/WinThreads.antt =====
-- Interleavings of the caller and the monitors on Windows.
use lib_sp.Base.{◌+◌, ◌≤◌, ◌≡◌, refl, Bool, true, false, [], ◌∷◌, Inevitable}
use lib_sp.Win.Threads.{
  destroyed, close_waits, watches, tests_flag, System, start, opens, sets_flag, starts, calls_close,
  locks_to_stop, stops, begins, locks, goes_on, Step, by_caller, by_monitor, Reach, here, next,
}
use lib_sp.Win.Threads.Exclusion.{total, monitor_holds, caller_holds, held, one_holds}
use lib_sp.Win.Threads.Safety.{alive, no_use_after_close_handle}
use lib_sp.Win.Threads.Leftover.{left_after_delete}
use lib_sp.Win.Threads.Progress.{HasWaited, close_wait_ends}

-- An open port whose monitor holds the mutex, and whose monitor is about to call `WaitCommEvent`.
abbrev testing : System
testing = record (start 0) {
  has_handle = true;
  device_open = true;
  has_thread = true;
  running = true;
  mutex = true;
  monitors = tests_flag ∷ [];
}

abbrev watching : System
watching = record testing { mutex = false; monitors = watches ∷ [] }

testing-Reach : (timed : Bool) → Reach timed (start 0) testing
testing-Reach timed =
    let opened = next here (by_caller (opens refl refl refl)) in
    let started =
      next (next opened (by_caller (sets_flag refl refl))) (by_caller (starts refl refl)) in
    let entered =
      next started (by_monitor [] [] _ _ _ _ refl (begins refl refl refl refl refl) refl) in
    next entered (by_monitor [] [] _ _ _ _ refl (locks refl refl refl refl refl) refl)

watching-Reach : (timed : Bool) → Reach timed (start 0) watching
watching-Reach timed =
    next (testing-Reach timed)
      (by_monitor [] [] _ _ _ _ refl (goes_on refl refl refl refl refl) refl)

-- The same with the caller in the wait of `close`.
abbrev closing : System
closing = record watching { running = false; caller = close_waits }

closing-Reach : (timed : Bool) → Reach timed (start 0) closing
closing-Reach timed =
    let called = next (watching-Reach timed) (by_caller (calls_close refl refl refl)) in
    next (next called (by_caller (locks_to_stop refl refl refl))) (by_caller (stops refl refl))

one_holds_example :
    (caller_holds testing.caller + total monitor_holds testing.monitors ≤ 1)
    × (held testing.mutex ≡ caller_holds testing.caller + total monitor_holds testing.monitors)
one_holds_example = one_holds (testing-Reach true)

no_use_after_close_handle_example : closing.device_open ≡ true
no_use_after_close_handle_example =
    no_use_after_close_handle (closing-Reach false) [] [] watches refl refl

left_after_delete_example :
    (s : System) × Reach true (start 0) s × (s.caller ≡ destroyed) × (total alive s.monitors ≡ 3)
left_after_delete_example = left_after_delete 0 3

close_wait_ends_example : Inevitable (Step true) HasWaited closing
close_wait_ends_example = close_wait_ends (closing-Reach true) refl
