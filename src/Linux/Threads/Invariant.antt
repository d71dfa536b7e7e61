-- ===== src/Linux/Threads/Invariant.antt =====
-- What holds in every state that the two threads reach.
use lib_sp.Base.{◌≡◌, ◌≢◌, Bool, true, false, arith}
use lib_sp.Linux.State.{invalid_value}
use lib_sp.Linux.Threads.{
  caller_owns, reader_owns, CallerPc, destroyed, send_checks, send_writes, send_unlocks,
  close_joins, close_closes, close_clears, ReaderPc, absent, checks, reads, notifies, unlocks,
  System, start, CallerStep, opens_quietly, opens_with_thread, opens_in_vain, calls_send,
  takes_mutex, finds_closed, finds_open, writes, gives_mutex, calls_close, joins, closes, clears,
  deletes, ReaderStep, goes_on, ends, skips, has_data, locks_mutex, sees_closed, sees_open,
  reads_some, reads_none, hands_on, unlocks_mutex, Step, by_caller, by_reader, Reach, here, next,
}

-- The reader is between `lock` and `unlock`.
abbrev pub reader_inside : ReaderPc → Bool
reader_inside checks = true
reader_inside reads = true
reader_inside notifies = true
reader_inside unlocks = true
reader_inside _ = false

-- The caller is in `send`, between `lock` and `unlock`.
abbrev pub caller_inside : CallerPc → Bool
caller_inside send_checks = true
caller_inside send_writes = true
caller_inside send_unlocks = true
caller_inside _ = false

-- The caller is in `close`, after `pthread_join`.
abbrev pub joined : CallerPc → Bool
joined close_closes = true
joined close_clears = true
joined _ = false

pub record Inv (s : System) : Type 0 where
  pub reader_locked : reader_inside s.reader ≡ true → s.mutex ≡ reader_owns
  pub reader_held : s.mutex ≡ reader_owns → reader_inside s.reader ≡ true
  pub caller_locked : caller_inside s.caller ≡ true → s.mutex ≡ caller_owns
  pub thread_open : s.reader ≢ absent → s.fd ≢ invalid_value
  pub thread_gone : joined s.caller ≡ true → s.reader ≡ absent
  pub descriptor : s.caller ≢ close_clears → s.fd ≢ invalid_value → s.kernel_open ≡ true
  pub writing : s.caller ≡ send_writes → s.fd ≢ invalid_value
  pub deleted : s.caller ≡ destroyed → s.fd ≡ invalid_value
  pub closing : s.caller ≡ close_joins → s.running ≡ false

pub start-Inv : Inv start
start-Inv = ground arith

caller-Inv : {s u : System} → CallerStep s u → Inv s → Inv u
caller-Inv (opens_quietly n c f v e) i = ground arith
caller-Inv (opens_with_thread n c f v e) i = ground arith
caller-Inv (opens_in_vain n c f v e) i = ground arith
caller-Inv (calls_send c e) i = ground arith
caller-Inv (takes_mutex c m e) i = ground arith
caller-Inv (finds_closed c f e) i = ground arith
caller-Inv (finds_open c f e) i = ground arith
caller-Inv (writes c e) i = ground arith
caller-Inv (gives_mutex c e) i = ground arith
caller-Inv (calls_close c f e) i = ground arith
caller-Inv (joins c r e) i = ground arith
caller-Inv (closes c e) i = ground arith
caller-Inv (clears c e) i = ground arith
caller-Inv (deletes c f e) i = ground arith

reader-Inv : {s u : System} → ReaderStep s u → Inv s → Inv u
reader-Inv (goes_on r b e) i = ground arith
reader-Inv (ends r b e) i = ground arith
reader-Inv (skips r e) i = ground arith
reader-Inv (has_data r e) i = ground arith
reader-Inv (locks_mutex r m e) i = ground arith
reader-Inv (sees_closed r f e) i = ground arith
reader-Inv (sees_open r f e) i = ground arith
reader-Inv (reads_some r e) i = ground arith
reader-Inv (reads_none r e) i = ground arith
reader-Inv (hands_on r e) i = ground arith
reader-Inv (unlocks_mutex r e) i = ground arith

pub Step-Inv : {s u : System} → Step s u → Inv s → Inv u
Step-Inv (by_caller c) i = caller-Inv c i
Step-Inv (by_reader r) i = reader-Inv r i

pub Reach-Inv : {s u : System} → Reach s u → Inv s → Inv u
Reach-Inv here i = i
Reach-Inv (next r st) i = Step-Inv st (Reach-Inv r i)
