-- ===== src/Linux/Threads/Progress.antt =====
-- `close` comes to its end, whatever the receiving thread is doing.
use lib_sp.Base.{
  Inevitable, ranked-Inevitable, ℕ, ◌≤◌, ◌<◌, ◌≡◌, refl, ◌≢◌, ◌⊎◌, true, false, arith,
}
use lib_sp.Linux.State.{invalid_value}
use lib_sp.Linux.Threads.{
  nobody, caller_owns, reader_owns, close_joins, close_closes, ReaderPc, absent, tests, asks, locks,
  checks, reads, notifies, unlocks, ended, System, start, opens_quietly, opens_with_thread,
  opens_in_vain, calls_send, takes_mutex, finds_closed, finds_open, writes, gives_mutex,
  calls_close, joins, closes, clears, deletes, goes_on, ends, skips, has_data, locks_mutex,
  sees_closed, sees_open, reads_some, reads_none, hands_on, unlocks_mutex, Step, by_caller,
  by_reader, Reach,
}
use lib_sp.Linux.Threads.Invariant.{Inv, reader_inside, start-Inv, Reach-Inv}

-- The steps of its own that the receiving thread has at most left once the flag is clear.
abbrev rank : ReaderPc → ℕ
rank absent = 0
rank ended = 0
rank tests = 1
rank unlocks = 2
rank notifies = 3
rank reads = 4
rank checks = 5
rank locks = 6
rank asks = 7

rank_le : (r : ReaderPc) → rank r ≤ 7
rank_le r = ground arith

-- The caller waits in `pthread_join`, and does not hold the mutex.
record Joining (s : System) : Type 0 where
  at_join : s.caller ≡ close_joins
  stopped : s.running ≡ false
  not_owned : s.mutex ≢ caller_owns
  held : s.mutex ≡ reader_owns → reader_inside s.reader ≡ true
  opened : s.reader ≢ absent → s.fd ≢ invalid_value
  present : s.reader ≢ absent

-- A step that can be taken.
enabled : (s : System) → Joining s → (u : System) × Step s u
enabled s j = go s.reader refl
  where
    go : (r : ReaderPc) → s.reader ≡ r → (u : System) × Step s u
    go absent e = elim (j.present e) [ ]
    go ended e =
        (record s { caller = close_closes; reader = absent }, by_caller (joins j.at_join e refl))
    go tests e = (record s { reader = ended }, by_reader (ends e j.stopped refl))
    go asks e = (record s { reader = tests }, by_reader (skips e refl))
    go locks e = (
      record s { reader = checks; mutex = reader_owns },
      by_reader (locks_mutex e (ground arith) refl),
    )
    go checks e = (record s { reader = reads }, by_reader (sees_open e (ground arith) refl))
    go reads e = (record s { reader = notifies }, by_reader (reads_some e refl))
    go notifies e = (record s { reader = unlocks }, by_reader (hands_on e refl))
    go unlocks e = (record s { reader = tests; mutex = nobody }, by_reader (unlocks_mutex e refl))

Joining-Step :
    {s u : System}
    → Step s u
    → Joining s
    → (u.caller ≡ close_closes) ⊎ (Joining u × (rank u.reader < rank s.reader))
Joining-Step (by_caller (opens_quietly n c f v e)) j = ground arith
Joining-Step (by_caller (opens_with_thread n c f v e)) j = ground arith
Joining-Step (by_caller (opens_in_vain n c f v e)) j = ground arith
Joining-Step (by_caller (calls_send c e)) j = ground arith
Joining-Step (by_caller (takes_mutex c m e)) j = ground arith
Joining-Step (by_caller (finds_closed c f e)) j = ground arith
Joining-Step (by_caller (finds_open c f e)) j = ground arith
Joining-Step (by_caller (writes c e)) j = ground arith
Joining-Step (by_caller (gives_mutex c e)) j = ground arith
Joining-Step (by_caller (calls_close c f e)) j = ground arith
Joining-Step (by_caller (joins c r e)) j = ground arith
Joining-Step (by_caller (closes c e)) j = ground arith
Joining-Step (by_caller (clears c e)) j = ground arith
Joining-Step (by_caller (deletes c f e)) j = ground arith
Joining-Step (by_reader (goes_on r b e)) j = ground arith
Joining-Step (by_reader (ends r b e)) j = ground arith
Joining-Step (by_reader (skips r e)) j = ground arith
Joining-Step (by_reader (has_data r e)) j = ground arith
Joining-Step (by_reader (locks_mutex r m e)) j = ground arith
Joining-Step (by_reader (sees_closed r f e)) j = ground arith
Joining-Step (by_reader (sees_open r f e)) j = ground arith
Joining-Step (by_reader (reads_some r e)) j = ground arith
Joining-Step (by_reader (reads_none r e)) j = ground arith
Joining-Step (by_reader (hands_on r e)) j = ground arith
Joining-Step (by_reader (unlocks_mutex r e)) j = ground arith

abbrev pub HasJoined : System → Type 0
HasJoined s = s.caller ≡ close_closes

-- `close` ends where there is a receiving thread: in a reachable state in which the caller waits in
-- `pthread_join` for it and does not hold the mutex, a step can be taken, and after each sequence of
-- steps the join has returned within finitely many more, whichever of the two threads moves.
pub close_ends :
    {s : System}
    → Reach start s
    → s.caller ≡ close_joins
    → s.reader ≢ absent
    → s.mutex ≢ caller_owns
    → Inevitable Step HasJoined s
close_ends {s} r c t m =
    ranked-Inevitable Step HasJoined Joining (λ u. rank u.reader) enabled (λ _ _. Joining-Step) 7 s
      (rank_le s.reader)
      (record {
        at_join = c;
        stopped = i.closing c;
        not_owned = m;
        held = i.reader_held;
        opened = i.thread_open;
        present = t;
      })
  where
    i : Inv s
    i = Reach-Inv r start-Inv
