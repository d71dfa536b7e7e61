-- ===== src/Win/Threads/Progress.antt =====
-- The wait of `close` for the thread comes to its end, however many monitors there are.
use lib_sp.Base.{
  Bool, ℕ, ◌<◌, ◌≡◌, refl, ◌⊎◌, inl, inr, true, false, ◌∷◌, ◌++◌, arith, Inevitable,
  ranked-Inevitable,
}
use lib_sp.Win.Threads.{
  close_waits, close_closes, MonitorPc, enters, locks_flag, tests_flag, watches, waits, asks,
  clears, tests_handle, read_locks, reads, empties, exited, System, start, CallerStep, opens, fails,
  sets_flag, starts, fails_late, starts_none, calls_send, takes_mutex, gives_mutex, calls_close,
  locks_to_stop, stops, has_none, has_ended, times_out, closes, forgets, deletes, Move, leaves,
  begins, locks, goes_on, ends, watched, wakes, wait_fails, gets_none, gets_data, gets_other,
  has_enough, has_few, sees_device, sees_none, locks_to_read, has_read, emptied, Step, by_caller,
  by_monitor, Reach, here, next,
}
use lib_sp.Win.Threads.Exclusion.{total, total-append}

-- The flag is clear while the caller waits.
abbrev Stopped : System → Type 0
Stopped s = s.caller ≡ close_waits → s.running ≡ false

caller-Stopped : {timed : Bool} {s u : System} → CallerStep timed s u → Stopped s → Stopped u
caller-Stopped (opens a b e) i = ground arith
caller-Stopped (fails a e) i = ground arith
caller-Stopped (sets_flag a e) i = ground arith
caller-Stopped (starts a e) i = ground arith
caller-Stopped (fails_late a e) i = ground arith
caller-Stopped (starts_none a e) i = ground arith
caller-Stopped (calls_send a b e) i = ground arith
caller-Stopped (takes_mutex a b e) i = ground arith
caller-Stopped (gives_mutex a e) i = ground arith
caller-Stopped (calls_close a b e) i = ground arith
caller-Stopped (locks_to_stop a b e) i = ground arith
caller-Stopped (stops a e) i = ground arith
caller-Stopped (has_none a b e) i = ground arith
caller-Stopped (has_ended rest a b e) i = ground arith
caller-Stopped (times_out a b e) i = ground arith
caller-Stopped (closes a e) i = ground arith
caller-Stopped (forgets a e) i = ground arith
caller-Stopped (deletes a b e) i = ground arith

Reach-Stopped : {timed : Bool} {n : ℕ} {s : System} → Reach timed (start n) s → Stopped s
Reach-Stopped here = ground arith
Reach-Stopped (next r (by_caller c)) = caller-Stopped c (Reach-Stopped r)
Reach-Stopped (next r (by_monitor before after p q mutex signals m move e)) = rw e (Reach-Stopped r)

-- The steps that a monitor has at most left once the flag is clear.
abbrev rank : MonitorPc → ℕ
rank exited = 0
rank tests_flag = 1
rank locks_flag = 2
rank enters = 3
rank empties = 3
rank reads = 4
rank read_locks = 5
rank tests_handle = 6
rank clears = 7
rank asks = 8
rank waits = 9
rank watches = 10

Move-rank :
    {s : System} {p q : MonitorPc} {mutex : Bool} {signals : ℕ}
    → Move s p q mutex signals
    → s.running ≡ false
    → rank q < rank p
Move-rank (leaves a b c d x) h = ground arith
Move-rank (begins a b c d x) h = ground arith
Move-rank (locks a b c d x) h = ground arith
Move-rank (goes_on a b c d x) h = ground arith
Move-rank (ends a b c d x) h = ground arith
Move-rank (watched a b c x) h = ground arith
Move-rank (wakes a b c x) h = ground arith
Move-rank (wait_fails a b c x) h = ground arith
Move-rank (gets_none a b c x) h = ground arith
Move-rank (gets_data a b c x) h = ground arith
Move-rank (gets_other a b c x) h = ground arith
Move-rank (has_enough a b c x) h = ground arith
Move-rank (has_few a b c x) h = ground arith
Move-rank (sees_device a b c d x) h = ground arith
Move-rank (sees_none a b c d x) h = ground arith
Move-rank (locks_to_read a b c d x) h = ground arith
Move-rank (has_read a b c x) h = ground arith
Move-rank (emptied a b c x) h = ground arith

abbrev Waiting : System → Type 0
Waiting s = (s.caller ≡ close_waits) × (s.running ≡ false)

abbrev pub HasWaited : System → Type 0
HasWaited s = s.caller ≡ close_closes

abbrev left : System → ℕ
left s = total rank s.monitors

caller-Waiting : {s u : System} → CallerStep true s u → Waiting s → HasWaited u
caller-Waiting (opens a b e) w = ground arith
caller-Waiting (fails a e) w = ground arith
caller-Waiting (sets_flag a e) w = ground arith
caller-Waiting (starts a e) w = ground arith
caller-Waiting (fails_late a e) w = ground arith
caller-Waiting (starts_none a e) w = ground arith
caller-Waiting (calls_send a b e) w = ground arith
caller-Waiting (takes_mutex a b e) w = ground arith
caller-Waiting (gives_mutex a e) w = ground arith
caller-Waiting (calls_close a b e) w = ground arith
caller-Waiting (locks_to_stop a b e) w = ground arith
caller-Waiting (stops a e) w = ground arith
caller-Waiting (has_none a b e) w = ground arith
caller-Waiting (has_ended rest a b e) w = ground arith
caller-Waiting (times_out a b e) w = ground arith
caller-Waiting (closes a e) w = ground arith
caller-Waiting (forgets a e) w = ground arith
caller-Waiting (deletes a b e) w = ground arith

Waiting-Step :
    (s u : System) → Step true s u → Waiting s → HasWaited u ⊎ (Waiting u × (left u < left s))
Waiting-Step s u (by_caller c) w = inl (caller-Waiting c w)
Waiting-Step s u (by_monitor before after p q mutex signals m move e) w =
    let old = total-append rank before (p ∷ after) in
    let new = total-append rank before (q ∷ after) in
    let less = Move-rank move w.1 in
    let shorter : total rank (before ++ q ∷ after) < total rank (before ++ p ∷ after) =
      omega (arith, old, new, less) in
    inr (rw e (w, rw m shorter))

enabled : (s : System) → Waiting s → (u : System) × Step true s u
enabled s w =
    (record s { has_thread = false; caller = close_closes }, by_caller (times_out w.0 refl refl))

-- The wait of `close` ends: in a reachable state in which the caller waits for the thread a step
-- can be taken, and after each sequence of steps the wait is over within finitely many more,
-- whichever threads move and however many there are.
pub close_wait_ends :
    {n : ℕ} {s : System}
    → Reach true (start n) s
    → s.caller ≡ close_waits
    → Inevitable (Step true) HasWaited s
close_wait_ends {s} r c =
    ranked-Inevitable (Step true) HasWaited Waiting left enabled Waiting-Step (left s) s
      (omega arith) (c, Reach-Stopped r c)
