-- ===== src/Win/Threads.antt =====
-- src/serial_port_win_base.cpp: the caller's thread, which runs `open`, `send` and `close` in the
-- asynchronous mode, beside the threads that run `thread_recv_data_monitor`, one access to shared
-- state at a time. Time is left out: a thread may be delayed at any point. The callback is assumed
-- to call no method of the object.
pub mod Exclusion
pub mod Safety
pub mod Leftover
pub mod Progress
use lib_sp.Base.{ℕ, suc, ◌≡◌, Bool, true, false, List, [], ◌∷◌, ◌++◌}

-- Where the caller stands.
pub data CallerPc : Type 0 where
  idle : CallerPc  -- between two calls
  open_sets_up : CallerPc  -- `open`, after `CreateFile`
  open_starts : CallerPc  -- `open`, after the flag is set
  send_locks : CallerPc  -- `send_async`, before `lock`
  send_writes : CallerPc  -- `send_async`, before `WriteFile` and `unlock`
  close_locks : CallerPc  -- `set_recv_thread_is_running`, before `lock`
  close_stops : CallerPc  -- `set_recv_thread_is_running`, after `lock`
  close_waits : CallerPc  -- `stop_thread_monitor`, in `WaitForSingleObject`
  close_closes : CallerPc  -- `close`, before `CloseHandle` of the device
  close_forgets : CallerPc  -- `close`, before the handle is set to INVALID_HANDLE_VALUE
  destroyed : CallerPc  -- after the destructor, the object's memory is free

-- Where a monitor stands.
pub data MonitorPc : Type 0 where
  enters : MonitorPc  -- before the test of the handle
  locks_flag : MonitorPc  -- `get_recv_thread_is_running`, before `lock`
  tests_flag : MonitorPc  -- `get_recv_thread_is_running`, after `lock`
  watches : MonitorPc  -- before `WaitCommEvent`
  waits : MonitorPc  -- in `WaitForSingleObject`
  asks : MonitorPc  -- before `GetOverlappedResult`
  clears : MonitorPc  -- before `ClearCommError`
  tests_handle : MonitorPc  -- `read_data`, before the test of the handle
  read_locks : MonitorPc  -- `read_data`, before `lock`
  reads : MonitorPc  -- `read_data`, after `lock`
  empties : MonitorPc  -- before the part of the round for EV_TXEMPTY
  exited : MonitorPc  -- after the end of the thread

-- Whether the object has the handle of a device and whether that is open in the system, whether it
-- has the handle of a monitor, the flag of the loop, whether the mutex is held, and the threads,
-- with the newest monitor first; and how often the wait of a monitor for the event of the device,
-- which has no limit, still comes back.
pub record System : Type 0 where
  pub has_handle : Bool
  pub device_open : Bool
  pub has_thread : Bool
  pub running : Bool
  pub mutex : Bool
  pub caller : CallerPc
  pub monitors : List MonitorPc
  pub signals : ℕ

-- A closed port whose device gives `n` signals.
abbrev pub start : ℕ → System
start n = record {
  has_handle = false;
  device_open = false;
  has_thread = false;
  running = false;
  mutex = false;
  caller = idle;
  monitors = [];
  signals = n;
}

-- A step of the caller; the destructor is `close` where the port is open, and then `deletes`.
-- `timed` tells whether the wait for the thread may end by its limit of 512 milliseconds.
pub data CallerStep (timed : Bool) (s u : System) : Type 0 where
  opens :
      s.caller ≡ idle
      → s.has_handle ≡ false
      → u ≡ record s { has_handle = true; device_open = true; caller = open_sets_up }
      → CallerStep timed s u
  fails : s.caller ≡ open_sets_up → u ≡ record s { caller = close_locks } → CallerStep timed s u
  sets_flag :
      s.caller ≡ open_sets_up
      → u ≡ record s { running = true; caller = open_starts }
      → CallerStep timed s u
  starts :
      s.caller ≡ open_starts
      → u ≡ record s { has_thread = true; caller = idle; monitors = enters ∷ s.monitors }
      → CallerStep timed s u
  fails_late :
      s.caller ≡ open_starts
      → u ≡ record s { running = false; caller = close_locks }
      → CallerStep timed s u
  starts_none : s.caller ≡ open_starts → u ≡ record s { caller = idle } → CallerStep timed s u
  calls_send :
      s.caller ≡ idle
      → s.has_handle ≡ true
      → u ≡ record s { caller = send_locks }
      → CallerStep timed s u
  takes_mutex :
      s.caller ≡ send_locks
      → s.mutex ≡ false
      → u ≡ record s { caller = send_writes; mutex = true }
      → CallerStep timed s u
  gives_mutex :
      s.caller ≡ send_writes → u ≡ record s { caller = idle; mutex = false } → CallerStep timed s u
  calls_close :
      s.caller ≡ idle
      → s.has_handle ≡ true
      → u ≡ record s { caller = close_locks }
      → CallerStep timed s u
  locks_to_stop :
      s.caller ≡ close_locks
      → s.mutex ≡ false
      → u ≡ record s { caller = close_stops; mutex = true }
      → CallerStep timed s u
  stops :
      s.caller ≡ close_stops
      → u ≡ record s { running = false; mutex = false; caller = close_waits }
      → CallerStep timed s u
  has_none :
      s.caller ≡ close_waits
      → s.has_thread ≡ false
      → u ≡ record s { caller = close_closes }
      → CallerStep timed s u
  has_ended :
      (rest : List MonitorPc)
      → s.caller ≡ close_waits
      → s.monitors ≡ exited ∷ rest
      → u ≡ record s { has_thread = false; caller = close_closes }
      → CallerStep timed s u
  times_out :
      s.caller ≡ close_waits
      → timed ≡ true
      → u ≡ record s { has_thread = false; caller = close_closes }
      → CallerStep timed s u
  closes :
      s.caller ≡ close_closes
      → u ≡ record s { device_open = false; caller = close_forgets }
      → CallerStep timed s u
  forgets :
      s.caller ≡ close_forgets
      → u ≡ record s { has_handle = false; caller = idle }
      → CallerStep timed s u
  deletes :
      s.caller ≡ idle
      → s.has_handle ≡ false
      → u ≡ record s { caller = destroyed }
      → CallerStep timed s u

-- A step of a monitor from one point to another, with the mutex and the signals after it. The wait
-- for the event of the device comes back only where the device gives a signal. What else the calls
-- of the system give is left open.
pub data Move (s : System) (p q : MonitorPc) (mutex : Bool) (signals : ℕ) : Type 0 where
  leaves :
      p ≡ enters
      → s.has_handle ≡ false
      → q ≡ exited
      → mutex ≡ s.mutex
      → signals ≡ s.signals
      → Move s p q mutex signals
  begins :
      p ≡ enters
      → s.has_handle ≡ true
      → q ≡ locks_flag
      → mutex ≡ s.mutex
      → signals ≡ s.signals
      → Move s p q mutex signals
  locks :
      p ≡ locks_flag
      → s.mutex ≡ false
      → q ≡ tests_flag
      → mutex ≡ true
      → signals ≡ s.signals
      → Move s p q mutex signals
  goes_on :
      p ≡ tests_flag
      → s.running ≡ true
      → q ≡ watches
      → mutex ≡ false
      → signals ≡ s.signals
      → Move s p q mutex signals
  ends :
      p ≡ tests_flag
      → s.running ≡ false
      → q ≡ exited
      → mutex ≡ false
      → signals ≡ s.signals
      → Move s p q mutex signals
  watched :
      p ≡ watches → q ≡ waits → mutex ≡ s.mutex → signals ≡ s.signals → Move s p q mutex signals
  wakes :
      p ≡ waits → q ≡ asks → mutex ≡ s.mutex → s.signals ≡ suc signals → Move s p q mutex signals
  wait_fails :
      p ≡ waits
      → q ≡ locks_flag
      → mutex ≡ s.mutex
      → s.signals ≡ suc signals
      → Move s p q mutex signals
  gets_none :
      p ≡ asks → q ≡ exited → mutex ≡ s.mutex → signals ≡ s.signals → Move s p q mutex signals
  gets_data :
      p ≡ asks → q ≡ clears → mutex ≡ s.mutex → signals ≡ s.signals → Move s p q mutex signals
  gets_other :
      p ≡ asks → q ≡ empties → mutex ≡ s.mutex → signals ≡ s.signals → Move s p q mutex signals
  has_enough :
      p ≡ clears
      → q ≡ tests_handle
      → mutex ≡ s.mutex
      → signals ≡ s.signals
      → Move s p q mutex signals
  has_few :
      p ≡ clears → q ≡ empties → mutex ≡ s.mutex → signals ≡ s.signals → Move s p q mutex signals
  sees_device :
      p ≡ tests_handle
      → s.has_handle ≡ true
      → q ≡ empties
      → mutex ≡ s.mutex
      → signals ≡ s.signals
      → Move s p q mutex signals
  sees_none :
      p ≡ tests_handle
      → s.has_handle ≡ false
      → q ≡ read_locks
      → mutex ≡ s.mutex
      → signals ≡ s.signals
      → Move s p q mutex signals
  locks_to_read :
      p ≡ read_locks
      → s.mutex ≡ false
      → q ≡ reads
      → mutex ≡ true
      → signals ≡ s.signals
      → Move s p q mutex signals
  has_read :
      p ≡ reads → q ≡ empties → mutex ≡ false → signals ≡ s.signals → Move s p q mutex signals
  emptied :
      p ≡ empties
      → q ≡ locks_flag
      → mutex ≡ s.mutex
      → signals ≡ s.signals
      → Move s p q mutex signals

pub data Step (timed : Bool) (s u : System) : Type 0 where
  by_caller : CallerStep timed s u → Step timed s u
  by_monitor :
      (before after : List MonitorPc) (p q : MonitorPc) (mutex : Bool) (signals : ℕ)
      → s.monitors ≡ before ++ p ∷ after
      → Move s p q mutex signals
      → u ≡ record s { mutex = mutex; monitors = before ++ q ∷ after; signals = signals }
      → Step timed s u

-- The states that some interleaving of the threads leads to from `s`.
pub data Reach (timed : Bool) (s : System) : System → Type 0 where
  here : Reach timed s s
  next : {u v : System} → Reach timed s u → Step timed u v → Reach timed s v
