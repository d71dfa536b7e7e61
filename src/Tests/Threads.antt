-- ===== src/Tests/Threads.antt =====
-- Interleavings of the caller and the receiving thread.
use lib_sp.Base.{Inevitable, ◌≡◌, refl, inl, true, false, pos}
use lib_sp.Linux.Threads.{
  destroyed, skips, ends, joins, closes, clears, deletes, caller_owns, close_joins, asks, locks,
  System, start, opens_with_thread, calls_send, takes_mutex, finds_closed, calls_close, goes_on,
  has_data, Step, by_caller, by_reader, Reach, here, next,
}
use lib_sp.Linux.Threads.Invariant.{caller_inside, reader_inside}
use lib_sp.Linux.Threads.Safety.{mutual_exclusion, no_use_after_close}
use lib_sp.Linux.Threads.Progress.{HasJoined, close_ends}
use lib_sp.Linux.Threads.Deadlock.{Stuck}

-- An open port whose receiving thread is about to ask for the number of bytes.
abbrev receiving : System
receiving = record start { fd = pos 3; kernel_open = true; running = true; reader = asks }

receiving-Reach : Reach start receiving
receiving-Reach =
    next (next here (by_caller (opens_with_thread (pos 3) refl refl (λ e. cc) refl)))
      (by_reader (goes_on refl refl refl))

-- The same with the caller in `close`.
abbrev closing : System
closing = record receiving { running = false; caller = close_joins }

closing-Reach : Reach start closing
closing-Reach = next receiving-Reach (by_caller (calls_close refl (λ e. cc) refl))

-- `send` on the closed port, `open`, and data that arrives.
abbrev waiting : System
waiting = record receiving { mutex = caller_owns; reader = locks }

waiting-Reach : Reach start waiting
waiting-Reach =
    next
      (next
        (next
          (next
            (next (next here (by_caller (calls_send refl refl)))
              (by_caller (takes_mutex refl refl refl)))
            (by_caller (finds_closed refl refl refl)))
          (by_caller (opens_with_thread (pos 3) refl refl (λ e. cc) refl)))
        (by_reader (goes_on refl refl refl)))
      (by_reader (has_data refl refl))

waiting-Stuck : Stuck waiting
waiting-Stuck = ((refl, refl), refl, refl, λ e. cc)

mutual_exclusion_example :
    ¬ ((caller_inside receiving.caller ≡ true) × (reader_inside receiving.reader ≡ true))
mutual_exclusion_example = mutual_exclusion receiving-Reach

no_use_after_close_example : closing.kernel_open ≡ true
no_use_after_close_example = no_use_after_close closing-Reach (inl refl)

close_ends_example : Inevitable Step HasJoined closing
close_ends_example = close_ends closing-Reach refl (λ e. cc) (λ e. cc)

closed-Stuck : Stuck (record waiting { running = false; caller = close_joins })
closed-Stuck = ((refl, refl), refl, refl, λ e. cc)

-- The same after `close` and the destructor.
abbrev deleted : System
deleted = record start { caller = destroyed }

deleted-Reach : Reach start deleted
deleted-Reach =
    let skipped =
      next (next closing-Reach (by_reader (skips refl refl))) (by_reader (ends refl refl refl)) in
    let joined = next skipped (by_caller (joins refl refl refl)) in
    next (next (next joined (by_caller (closes refl refl))) (by_caller (clears refl refl)))
      (by_caller (deletes refl refl refl))
