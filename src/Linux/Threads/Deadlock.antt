-- ===== src/Linux/Threads/Deadlock.antt =====
-- What becomes of the two threads once `send` has kept the mutex.
use lib_sp.Base.{◌≡◌, ◌≢◌, false, arith}
use lib_sp.Linux.State.{invalid_value}
use lib_sp.Linux.Threads.{
  caller_owns, close_joins, locks, System, opens_quietly, opens_with_thread, opens_in_vain,
  calls_send, takes_mutex, finds_closed, finds_open, writes, gives_mutex, calls_close, joins,
  closes, clears, deletes, goes_on, ends, skips, has_data, locks_mutex, sees_closed, sees_open,
  reads_some, reads_none, hands_on, unlocks_mutex, Step, by_caller, by_reader, Reach, here, next,
}
use lib_sp.Linux.Threads.Invariant.{caller_inside, joined}

-- The mutex belongs to the caller, who is not in `send` any more.
abbrev pub Leaked : System → Type 0
Leaked s = (s.mutex ≡ caller_owns) × (caller_inside s.caller ≡ false)

-- The mutex is lost, the receiving thread waits for it, and the join has not returned.
abbrev pub Stuck : System → Type 0
Stuck s = Leaked s × (s.reader ≡ locks) × (joined s.caller ≡ false) × (s.fd ≢ invalid_value)

Stuck-Step : {s u : System} → Step s u → Stuck s → Stuck u
Stuck-Step (by_caller (opens_quietly n c f v e)) h = ground arith
Stuck-Step (by_caller (opens_with_thread n c f v e)) h = ground arith
Stuck-Step (by_caller (opens_in_vain n c f v e)) h = ground arith
Stuck-Step (by_caller (calls_send c e)) h = ground arith
Stuck-Step (by_caller (takes_mutex c m e)) h = ground arith
Stuck-Step (by_caller (finds_closed c f e)) h = ground arith
Stuck-Step (by_caller (finds_open c f e)) h = ground arith
Stuck-Step (by_caller (writes c e)) h = ground arith
Stuck-Step (by_caller (gives_mutex c e)) h = ground arith
Stuck-Step (by_caller (calls_close c f e)) h = ground arith
Stuck-Step (by_caller (joins c r e)) h = ground arith
Stuck-Step (by_caller (closes c e)) h = ground arith
Stuck-Step (by_caller (clears c e)) h = ground arith
Stuck-Step (by_caller (deletes c f e)) h = ground arith
Stuck-Step (by_reader (goes_on r b e)) h = ground arith
Stuck-Step (by_reader (ends r b e)) h = ground arith
Stuck-Step (by_reader (skips r e)) h = ground arith
Stuck-Step (by_reader (has_data r e)) h = ground arith
Stuck-Step (by_reader (locks_mutex r m e)) h = ground arith
Stuck-Step (by_reader (sees_closed r f e)) h = ground arith
Stuck-Step (by_reader (sees_open r f e)) h = ground arith
Stuck-Step (by_reader (reads_some r e)) h = ground arith
Stuck-Step (by_reader (reads_none r e)) h = ground arith
Stuck-Step (by_reader (hands_on r e)) h = ground arith
Stuck-Step (by_reader (unlocks_mutex r e)) h = ground arith

-- Once the mutex is lost and the receiving thread waits for it, that thread waits in every later
-- state, the port stays open, and no `close` gets past `pthread_join`.
Stuck-forever : {s u : System} → Stuck s → Reach s u → Stuck u
Stuck-forever h here = h
Stuck-forever h (next r st) = Stuck-Step st (Stuck-forever h r)

-- `close` in such a state is the end: no thread can take a step.
Stuck-deadlock : {s u : System} → Stuck s → s.caller ≡ close_joins → ¬ Step s u
Stuck-deadlock h c (by_caller (opens_quietly n d f v e)) = ground arith
Stuck-deadlock h c (by_caller (opens_with_thread n d f v e)) = ground arith
Stuck-deadlock h c (by_caller (opens_in_vain n d f v e)) = ground arith
Stuck-deadlock h c (by_caller (calls_send d e)) = ground arith
Stuck-deadlock h c (by_caller (takes_mutex d m e)) = ground arith
Stuck-deadlock h c (by_caller (finds_closed d f e)) = ground arith
Stuck-deadlock h c (by_caller (finds_open d f e)) = ground arith
Stuck-deadlock h c (by_caller (writes d e)) = ground arith
Stuck-deadlock h c (by_caller (gives_mutex d e)) = ground arith
Stuck-deadlock h c (by_caller (calls_close d f e)) = ground arith
Stuck-deadlock h c (by_caller (joins d r e)) = ground arith
Stuck-deadlock h c (by_caller (closes d e)) = ground arith
Stuck-deadlock h c (by_caller (clears d e)) = ground arith
Stuck-deadlock h c (by_caller (deletes d f e)) = ground arith
Stuck-deadlock h c (by_reader (goes_on r b e)) = ground arith
Stuck-deadlock h c (by_reader (ends r b e)) = ground arith
Stuck-deadlock h c (by_reader (skips r e)) = ground arith
Stuck-deadlock h c (by_reader (has_data r e)) = ground arith
Stuck-deadlock h c (by_reader (locks_mutex r m e)) = ground arith
Stuck-deadlock h c (by_reader (sees_closed r f e)) = ground arith
Stuck-deadlock h c (by_reader (sees_open r f e)) = ground arith
Stuck-deadlock h c (by_reader (reads_some r e)) = ground arith
Stuck-deadlock h c (by_reader (reads_none r e)) = ground arith
Stuck-deadlock h c (by_reader (hands_on r e)) = ground arith
Stuck-deadlock h c (by_reader (unlocks_mutex r e)) = ground arith
