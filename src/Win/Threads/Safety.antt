-- ===== src/Win/Threads/Safety.antt =====
-- Where the wait for the thread has no limit, a monitor uses the device only while it is open.
use lib_sp.Base.{ℕ, ◌≤◌, ◌≡◌, ◌≢◌, sym, Bool, true, false, List, [], ◌∷◌, ◌++◌, arith}
use lib_sp.Win.Threads.{
  CallerPc, idle, destroyed, open_sets_up, open_starts, close_closes, close_forgets, MonitorPc,
  exited, watches, asks, clears, reads, empties, System, start, CallerStep, opens, fails, sets_flag,
  starts, fails_late, starts_none, calls_send, takes_mutex, gives_mutex, calls_close, locks_to_stop,
  stops, has_none, has_ended, times_out, closes, forgets, deletes, Move, leaves, begins, locks,
  goes_on, ends, watched, wakes, wait_fails, gets_none, gets_data, gets_other, has_enough, has_few,
  sees_device, sees_none, locks_to_read, has_read, emptied, Step, by_caller, by_monitor, Reach,
  here, next,
}
use lib_sp.Win.Threads.Exclusion.{total, total-append}

-- 1 for a thread that has not ended.
abbrev pub alive : MonitorPc → ℕ
alive exited = 0
alive _ = 1

-- The monitors but the newest that have not ended.
abbrev older : List MonitorPc → ℕ
older [] = 0
older (p ∷ ps) = total alive ps

-- The caller is in a part of `open` or `close` in which the object has no thread.
abbrev without_thread : CallerPc → Bool
without_thread open_sets_up = true
without_thread open_starts = true
without_thread close_closes = true
without_thread close_forgets = true
without_thread _ = false

pub record Inv (s : System) : Type 0 where
  alone : older s.monitors ≡ 0
  none_alive : s.has_thread ≡ false → total alive s.monitors ≡ 0
  no_thread : without_thread s.caller ≡ true → s.has_thread ≡ false
  closed : s.has_handle ≡ false → s.has_thread ≡ false
  busy : s.caller ≢ idle → s.caller ≢ destroyed → s.has_handle ≡ true
  deleted : s.caller ≡ destroyed → s.has_handle ≡ false
  pub device : s.caller ≢ close_forgets → s.has_handle ≡ true → s.device_open ≡ true

caller-Inv : {s u : System} → CallerStep false s u → Inv s → Inv u
caller-Inv (opens a b e) i = ground arith
caller-Inv (fails a e) i = ground arith
caller-Inv (sets_flag a e) i = ground arith
caller-Inv (starts a e) i = ground arith
caller-Inv (fails_late a e) i = ground arith
caller-Inv (starts_none a e) i = ground arith
caller-Inv (calls_send a b e) i = ground arith
caller-Inv (takes_mutex a b e) i = ground arith
caller-Inv (gives_mutex a e) i = ground arith
caller-Inv (calls_close a b e) i = ground arith
caller-Inv (locks_to_stop a b e) i = ground arith
caller-Inv (stops a e) i = ground arith
caller-Inv (has_none a b e) i = ground arith
caller-Inv (has_ended rest a b e) i = ground arith
caller-Inv (times_out a b e) i = ground arith
caller-Inv (closes a e) i = ground arith
caller-Inv (forgets a e) i = ground arith
caller-Inv (deletes a b e) i = ground arith

-- No thread comes back to life.
Move-alive :
    {s : System} {p q : MonitorPc} {mutex : Bool} {signals : ℕ}
    → Move s p q mutex signals
    → alive q ≤ alive p
Move-alive (leaves a b c d x) = ground arith
Move-alive (begins a b c d x) = ground arith
Move-alive (locks a b c d x) = ground arith
Move-alive (goes_on a b c d x) = ground arith
Move-alive (ends a b c d x) = ground arith
Move-alive (watched a b c x) = ground arith
Move-alive (wakes a b c x) = ground arith
Move-alive (wait_fails a b c x) = ground arith
Move-alive (gets_none a b c x) = ground arith
Move-alive (gets_data a b c x) = ground arith
Move-alive (gets_other a b c x) = ground arith
Move-alive (has_enough a b c x) = ground arith
Move-alive (has_few a b c x) = ground arith
Move-alive (sees_device a b c d x) = ground arith
Move-alive (sees_none a b c d x) = ground arith
Move-alive (locks_to_read a b c d x) = ground arith
Move-alive (has_read a b c x) = ground arith
Move-alive (emptied a b c x) = ground arith

total-replace :
    (before after : List MonitorPc) (p q : MonitorPc)
    → alive q ≤ alive p
    → total alive (before ++ q ∷ after) ≤ total alive (before ++ p ∷ after)
total-replace before after p q h =
    let old = total-append alive before (p ∷ after) in
    let new = total-append alive before (q ∷ after) in omega (arith, h, old, new)

older-replace :
    (before after : List MonitorPc) (p q : MonitorPc)
    → alive q ≤ alive p
    → older (before ++ q ∷ after) ≤ older (before ++ p ∷ after)
older-replace [] after p q h = omega arith
older-replace (x ∷ before) after p q h = total-replace before after p q h

Step-Inv : {s u : System} → Step false s u → Inv s → Inv u
Step-Inv (by_caller c) i = caller-Inv c i
Step-Inv {s} (by_monitor before after p q mutex signals m move e) i =
    let less = total-replace before after p q (Move-alive move) in
    let fewer = older-replace before after p q (Move-alive move) in
    rw e (record {
      alone =
          let a : older (before ++ p ∷ after) ≡ 0 = rw (sym m) i.alone in omega (arith, a, fewer);
      none_alive = λ t.
          let a : total alive (before ++ p ∷ after) ≡ 0 = rw (sym m) (i.none_alive t) in
          omega (arith, a, less);
      no_thread = i.no_thread;
      closed = i.closed;
      busy = i.busy;
      deleted = i.deleted;
      device = i.device;
    })

start-Inv : (n : ℕ) → Inv (start n)
start-Inv n = ground arith

pub Reach-Inv : {n : ℕ} {s : System} → Reach false (start n) s → Inv s
Reach-Inv here = start-Inv _
Reach-Inv (next r st) = Step-Inv st (Reach-Inv r)

-- Where a monitor is about to use the handle of the device.
abbrev pub uses_device : MonitorPc → Bool
uses_device watches = true
uses_device asks = true
uses_device clears = true
uses_device reads = true
uses_device empties = true
uses_device _ = false

user-alive : (p : MonitorPc) → uses_device p ≡ true → alive p ≡ 1
user-alive p h = ground arith

-- Where the wait of `close` for the thread has no limit, every reachable state in which a monitor
-- is about to use the device has the device open.
pub no_use_after_close_handle :
    {n : ℕ} {s : System}
    → Reach false (start n) s
    → (before after : List MonitorPc) (p : MonitorPc) → s.monitors ≡ before ++ p ∷ after
    → uses_device p ≡ true
    → s.device_open ≡ true
no_use_after_close_handle {s} r before after p m h =
    let i = Reach-Inv r in
    let some_alive : total alive s.monitors ≢ 0 =
      rw m (λ z. omega (arith, z, user-alive p h, total-append alive before (p ∷ after))) in
    ground (arith, i, some_alive)

-- Where the wait of `close` for the thread has no limit, no monitor is left when the object is
-- deleted.
none_after_delete :
    {n : ℕ} {s : System}
    → Reach false (start n) s
    → s.caller ≡ destroyed
    → total alive s.monitors ≡ 0
none_after_delete r d = ground (arith, Reach-Inv r)
