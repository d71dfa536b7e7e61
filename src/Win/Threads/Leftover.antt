-- ===== src/Win/Threads/Leftover.antt =====
-- Threads that are left behind where the wait for the thread ends by its limit.
use lib_sp.Base.{ℕ, zero, suc, ◌≡◌, refl, true, false, [], ◌∷◌, replicate, arith}
use lib_sp.Win.Threads.{
  idle, destroyed, deletes, waits, System, start, opens, sets_flag, starts, calls_close,
  locks_to_stop, stops, times_out, closes, forgets, begins, locks, goes_on, watched, by_caller,
  by_monitor, Reach, here, next,
}
use lib_sp.Win.Threads.Exclusion.{total}
use lib_sp.Win.Threads.Safety.{alive}

-- A closed port whose first `n` monitors wait for the event of the device.
abbrev left : ℕ → ℕ → System
left m n = record (start m) { monitors = replicate n waits }

abbrev after_open : ℕ → ℕ → System
after_open m n = record (start m) {
  has_handle = true;
  device_open = true;
  has_thread = true;
  running = true;
  monitors = waits ∷ replicate n waits;
}

-- `open`, and the new monitor goes on to its wait.
open_again : (m n : ℕ) → Reach true (start m) (left m n) → Reach true (start m) (after_open m n)
open_again m n r =
    let ms = replicate n waits in
    let device = next r (by_caller (opens refl refl refl)) in
    let started =
      next (next device (by_caller (sets_flag refl refl))) (by_caller (starts refl refl)) in
    let entered =
      next started (by_monitor [] ms _ _ _ _ refl (begins refl refl refl refl refl) refl) in
    let locked =
      next entered (by_monitor [] ms _ _ _ _ refl (locks refl refl refl refl refl) refl) in
    let running =
      next locked (by_monitor [] ms _ _ _ _ refl (goes_on refl refl refl refl refl) refl) in
    next running (by_monitor [] ms _ _ _ _ refl (watched refl refl refl refl) refl)

-- `close`, whose wait ends by its limit.
close_again :
    (m n : ℕ) → Reach true (start m) (after_open m n) → Reach true (start m) (left m (suc n))
close_again m n r =
    let stopped =
      next
        (next (next r (by_caller (calls_close refl refl refl)))
          (by_caller (locks_to_stop refl refl refl)))
        (by_caller (stops refl refl)) in
    let waited = next stopped (by_caller (times_out refl refl refl)) in
    next (next waited (by_caller (closes refl refl))) (by_caller (forgets refl refl))

left-Reach : (m n : ℕ) → Reach true (start m) (left m n)
left-Reach m zero = here
left-Reach m (suc n) = close_again m n (open_again m n (left-Reach m n))

total-waits : (n : ℕ) → total alive (replicate n waits) ≡ n
total-waits zero = refl
total-waits (suc n) = omega (arith, total-waits n)

-- However large `n` is and however many signals the device gives, there is a reachable state in
-- which the port is closed, the caller is between two calls and `n` monitors have not ended.
left_behind :
    (m n : ℕ)
    → (s : System) × Reach true (start m) s
      × (s.caller ≡ idle)
      × (s.has_handle ≡ false)
      × (total alive s.monitors ≡ n)
left_behind m n = (left m n, left-Reach m n, refl, refl, total-waits n)

-- However large `n` is and however many signals the device gives, there is a reachable state in
-- which the object is deleted and `n` monitors, which all have a pointer to it, have not ended; the
-- caller has closed the port each time.
pub left_after_delete :
    (m n : ℕ)
    → (s : System) × Reach true (start m) s × (s.caller ≡ destroyed) × (total alive s.monitors ≡ n)
left_after_delete m n =
    let (s, r, c, h, t) = left_behind m n in
    (record s { caller = destroyed }, next r (by_caller (deletes c h refl)), refl, t)
