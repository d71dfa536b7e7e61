-- ===== src/Win/Threads/Exclusion.antt =====
-- At most one thread is between `lock` and `unlock`, however many monitors there are.
use lib_sp.Base.{ℕ, ◌+◌, ◌≤◌, ◌≡◌, refl, sym, Bool, true, false, List, [], ◌∷◌, ◌++◌, arith}
use lib_sp.Win.Threads.{
  CallerPc, send_writes, close_stops, MonitorPc, tests_flag, reads, System, start, CallerStep,
  opens, fails, sets_flag, starts, fails_late, starts_none, calls_send, takes_mutex, gives_mutex,
  calls_close, locks_to_stop, stops, has_none, has_ended, times_out, closes, forgets, deletes, Move,
  leaves, begins, locks, goes_on, ends, watched, wakes, wait_fails, gets_none, gets_data,
  gets_other, has_enough, has_few, sees_device, sees_none, locks_to_read, has_read, emptied, Step,
  by_caller, by_monitor, Reach, here, next,
}

abbrev pub total : (MonitorPc → ℕ) → List MonitorPc → ℕ
total f [] = 0
total f (p ∷ ps) = f p + total f ps

pub total-append :
    (f : MonitorPc → ℕ) (a b : List MonitorPc) → total f (a ++ b) ≡ total f a + total f b
total-append f [] b = omega arith
total-append f (p ∷ a) b = omega (arith, total-append f a b)

-- 1 where the monitor holds the mutex.
abbrev pub monitor_holds : MonitorPc → ℕ
monitor_holds tests_flag = 1
monitor_holds reads = 1
monitor_holds _ = 0

abbrev pub caller_holds : CallerPc → ℕ
caller_holds send_writes = 1
caller_holds close_stops = 1
caller_holds _ = 0

abbrev pub held : Bool → ℕ
held true = 1
held false = 0

-- The mutex is held by exactly the threads that are between `lock` and `unlock`.
abbrev Balanced : System → Type 0
Balanced s = held s.mutex ≡ caller_holds s.caller + total monitor_holds s.monitors

held_le : (b : Bool) → held b ≤ 1
held_le b = ground arith

Move-holds :
    {s : System} {p q : MonitorPc} {mutex : Bool} {signals : ℕ}
    → Move s p q mutex signals
    → monitor_holds p ≤ held s.mutex
    → monitor_holds q + held s.mutex ≡ monitor_holds p + held mutex
Move-holds (leaves a b c d x) h = ground arith
Move-holds (begins a b c d x) h = ground arith
Move-holds (locks a b c d x) h = ground arith
Move-holds (goes_on a b c d x) h = ground arith
Move-holds (ends a b c d x) h = ground arith
Move-holds (watched a b c x) h = ground arith
Move-holds (wakes a b c x) h = ground arith
Move-holds (wait_fails a b c x) h = ground arith
Move-holds (gets_none a b c x) h = ground arith
Move-holds (gets_data a b c x) h = ground arith
Move-holds (gets_other a b c x) h = ground arith
Move-holds (has_enough a b c x) h = ground arith
Move-holds (has_few a b c x) h = ground arith
Move-holds (sees_device a b c d x) h = ground arith
Move-holds (sees_none a b c d x) h = ground arith
Move-holds (locks_to_read a b c d x) h = ground arith
Move-holds (has_read a b c x) h = ground arith
Move-holds (emptied a b c x) h = ground arith

caller-Balanced : {timed : Bool} {s u : System} → CallerStep timed s u → Balanced s → Balanced u
caller-Balanced (opens a b e) i = ground arith
caller-Balanced (fails a e) i = ground arith
caller-Balanced (sets_flag a e) i = ground arith
caller-Balanced (starts a e) i = ground arith
caller-Balanced (fails_late a e) i = ground arith
caller-Balanced (starts_none a e) i = ground arith
caller-Balanced (calls_send a b e) i = ground arith
caller-Balanced (takes_mutex a b e) i = ground arith
caller-Balanced {s} (gives_mutex a e) i = let l = held_le s.mutex in ground arith
caller-Balanced (calls_close a b e) i = ground arith
caller-Balanced (locks_to_stop a b e) i = ground arith
caller-Balanced {s} (stops a e) i = let l = held_le s.mutex in ground arith
caller-Balanced (has_none a b e) i = ground arith
caller-Balanced (has_ended rest a b e) i = ground arith
caller-Balanced (times_out a b e) i = ground arith
caller-Balanced (closes a e) i = ground arith
caller-Balanced (forgets a e) i = ground arith
caller-Balanced (deletes a b e) i = ground arith

Step-Balanced : {timed : Bool} {s u : System} → Step timed s u → Balanced s → Balanced u
Step-Balanced (by_caller c) i = caller-Balanced c i
Step-Balanced {s} (by_monitor before after p q mutex signals m move e) i =
    let old = total-append monitor_holds before (p ∷ after) in
    let new = total-append monitor_holds before (q ∷ after) in
    let bal : held s.mutex ≡ caller_holds s.caller + total monitor_holds (before ++ p ∷ after) =
      rw (sym m) i in
    let moved = Move-holds move (omega (arith, bal, old)) in
    rw e (omega (arith, bal, old, new, moved))

Reach-Balanced : {timed : Bool} {n : ℕ} {s : System} → Reach timed (start n) s → Balanced s
Reach-Balanced here = refl
Reach-Balanced (next r st) = Step-Balanced st (Reach-Balanced r)

-- In every reachable state at most one thread is between `lock` and `unlock`, however many
-- monitors there are, and the mutex is held exactly if one is.
pub one_holds :
    {timed : Bool} {n : ℕ} {s : System}
    → Reach timed (start n) s
    → (caller_holds s.caller + total monitor_holds s.monitors ≤ 1)
      × (held s.mutex ≡ caller_holds s.caller + total monitor_holds s.monitors)
one_holds {s = s} r =
    let b = Reach-Balanced r in let l = held_le s.mutex in (omega (arith, b, l), b)
