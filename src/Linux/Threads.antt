-- ===== src/Linux/Threads.antt =====
-- src/serial_port_linux_base.cpp: the caller's thread, which runs `open`, `send` and `close`,
-- beside the receiving thread, which runs `thread_recv_data_monitor`, one access to shared state at
-- a time. The callback is assumed to call no method of the object.
pub mod Invariant
pub mod Safety
pub mod Progress
pub mod Deadlock
use lib_sp.Base.{◌≡◌, refl, ◌≢◌, ◌⊎◌, Bool, true, false, ℤ}
use lib_sp.Linux.State.{invalid_value}

-- Who holds `_mutex_recv`.
pub data Owner : Type 0 where
  nobody caller_owns reader_owns : Owner

-- Where the caller stands.
pub data CallerPc : Type 0 where
  idle : CallerPc  -- between two calls
  send_locks : CallerPc  -- `send`, before `lock`
  send_checks : CallerPc  -- `send`, after `lock`
  send_writes : CallerPc  -- `send`, before `write`
  send_unlocks : CallerPc  -- `send`, before `unlock`
  close_joins : CallerPc  -- `close`, in `pthread_join`
  close_closes : CallerPc  -- `close`, before `::close`
  close_clears : CallerPc  -- `close`, before `_fd = invalid_value`
  destroyed : CallerPc  -- after the destructor, the object's memory is free

-- Where the receiving thread stands.
pub data ReaderPc : Type 0 where
  absent : ReaderPc  -- no thread
  tests : ReaderPc  -- the head of the loop
  asks : ReaderPc  -- before `ioctl`
  locks : ReaderPc  -- before `lock`
  checks : ReaderPc  -- before `is_opened`
  reads : ReaderPc  -- before `read`
  notifies : ReaderPc  -- in `on_recv_data`
  unlocks : ReaderPc  -- before `unlock`
  ended : ReaderPc  -- after `pthread_exit`

-- The object's fields that both threads use, whether its descriptor is open in the kernel, and the
-- threads.
pub record System : Type 0 where
  pub fd : ℤ
  pub kernel_open : Bool
  pub running : Bool
  pub mutex : Owner
  pub caller : CallerPc
  pub reader : ReaderPc

abbrev pub start : System
start = record {
  fd = invalid_value;
  kernel_open = false;
  running = false;
  mutex = nobody;
  caller = idle;
  reader = absent;
}

-- A step of the caller. There is no receiving thread while `open` runs on a closed port, so a call
-- of `open` that succeeds is one step, and one that cannot open the device changes nothing. It makes
-- no thread without a receiver, or (`opens_in_vain`) where `pthread_create` fails. Where there is no
-- thread the join of `close` has no defined behaviour, and no step follows; so it is with an `open`
-- that fails after the device was opened, which is left out. The destructor is `close` where the port
-- is open, and then `deletes`.
pub data CallerStep (s u : System) : Type 0 where
  opens_quietly :
      (n : ℤ)
      → s.caller ≡ idle
      → s.fd ≡ invalid_value
      → n ≢ invalid_value
      → u ≡ record s { fd = n; kernel_open = true }
      → CallerStep s u
  opens_with_thread :
      (n : ℤ)
      → s.caller ≡ idle
      → s.fd ≡ invalid_value
      → n ≢ invalid_value
      → u ≡ record s { fd = n; kernel_open = true; running = true; reader = tests }
      → CallerStep s u
  opens_in_vain :
      (n : ℤ)
      → s.caller ≡ idle
      → s.fd ≡ invalid_value
      → n ≢ invalid_value
      → u ≡ record s { fd = n; kernel_open = true; running = true }
      → CallerStep s u
  calls_send : s.caller ≡ idle → u ≡ record s { caller = send_locks } → CallerStep s u
  takes_mutex :
      s.caller ≡ send_locks
      → s.mutex ≡ nobody
      → u ≡ record s { caller = send_checks; mutex = caller_owns }
      → CallerStep s u
  finds_closed :
      s.caller ≡ send_checks
      → s.fd ≡ invalid_value
      → u ≡ record s { caller = idle }
      → CallerStep s u
  finds_open :
      s.caller ≡ send_checks
      → s.fd ≢ invalid_value
      → u ≡ record s { caller = send_writes }
      → CallerStep s u
  writes : s.caller ≡ send_writes → u ≡ record s { caller = send_unlocks } → CallerStep s u
  gives_mutex :
      s.caller ≡ send_unlocks → u ≡ record s { caller = idle; mutex = nobody } → CallerStep s u
  calls_close :
      s.caller ≡ idle
      → s.fd ≢ invalid_value
      → u ≡ record s { caller = close_joins; running = false }
      → CallerStep s u
  joins :
      s.caller ≡ close_joins
      → s.reader ≡ ended
      → u ≡ record s { caller = close_closes; reader = absent }
      → CallerStep s u
  closes :
      s.caller ≡ close_closes
      → u ≡ record s { caller = close_clears; kernel_open = false }
      → CallerStep s u
  clears :
      s.caller ≡ close_clears → u ≡ record s { caller = idle; fd = invalid_value } → CallerStep s u
  deletes :
      s.caller ≡ idle → s.fd ≡ invalid_value → u ≡ record s { caller = destroyed } → CallerStep s u

-- A step of the receiving thread. How many bytes the device has, and whether a `read` succeeds, is
-- left open.
pub data ReaderStep (s u : System) : Type 0 where
  goes_on : s.reader ≡ tests → s.running ≡ true → u ≡ record s { reader = asks } → ReaderStep s u
  ends : s.reader ≡ tests → s.running ≡ false → u ≡ record s { reader = ended } → ReaderStep s u
  skips : s.reader ≡ asks → u ≡ record s { reader = tests } → ReaderStep s u
  has_data : s.reader ≡ asks → u ≡ record s { reader = locks } → ReaderStep s u
  locks_mutex :
      s.reader ≡ locks
      → s.mutex ≡ nobody
      → u ≡ record s { reader = checks; mutex = reader_owns }
      → ReaderStep s u
  sees_closed :
      s.reader ≡ checks → s.fd ≡ invalid_value → u ≡ record s { reader = unlocks } → ReaderStep s u
  sees_open :
      s.reader ≡ checks → s.fd ≢ invalid_value → u ≡ record s { reader = reads } → ReaderStep s u
  reads_some : s.reader ≡ reads → u ≡ record s { reader = notifies } → ReaderStep s u
  reads_none : s.reader ≡ reads → u ≡ record s { reader = unlocks } → ReaderStep s u
  hands_on : s.reader ≡ notifies → u ≡ record s { reader = unlocks } → ReaderStep s u
  unlocks_mutex :
      s.reader ≡ unlocks → u ≡ record s { reader = tests; mutex = nobody } → ReaderStep s u

pub data Step (s u : System) : Type 0 where
  by_caller : CallerStep s u → Step s u
  by_reader : ReaderStep s u → Step s u

-- The states that some interleaving of the two threads leads to from `s`.
pub data Reach (s : System) : System → Type 0 where
  here : Reach s s
  next : {u v : System} → Reach s u → Step u v → Reach s v
