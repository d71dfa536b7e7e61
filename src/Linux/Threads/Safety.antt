-- ===== src/Linux/Threads/Safety.antt =====
-- The two threads exclude each other, and use the descriptor only while it is open.
use lib_sp.Base.{◌≡◌, ◌⊎◌, true, arith}
use lib_sp.Linux.Threads.{destroyed, absent, send_writes, asks, reads, System, start, Reach}
use lib_sp.Linux.Threads.Invariant.{reader_inside, caller_inside, start-Inv, Reach-Inv}

-- In no reachable state is `send` between `lock` and `unlock` while the receiving thread is.
pub mutual_exclusion :
    {s : System}
    → Reach start s
    → ¬ ((caller_inside s.caller ≡ true) × (reader_inside s.reader ≡ true))
mutual_exclusion r h = ground (arith, Reach-Inv r start-Inv)

-- Where a thread is about to use the descriptor, by `ioctl`, `read` or `write`.
abbrev pub UsesDescriptor : System → Type 0
UsesDescriptor s = (s.reader ≡ asks) ⊎ (s.reader ≡ reads) ⊎ (s.caller ≡ send_writes)

-- In every reachable state in which a thread is about to use the descriptor, it is open.
pub no_use_after_close : {s : System} → Reach start s → UsesDescriptor s → s.kernel_open ≡ true
no_use_after_close r h = ground (arith, Reach-Inv r start-Inv)

-- When the object is deleted its receiving thread is gone, and nothing that comes after starts one:
-- in no reachable state does a thread use a deleted object.
no_use_after_delete : {s : System} → Reach start s → s.caller ≡ destroyed → s.reader ≡ absent
no_use_after_delete r d = ground (arith, Reach-Inv r start-Inv)
