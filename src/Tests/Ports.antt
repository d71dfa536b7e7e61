-- ===== src/Tests/Ports.antt =====
-- Ports on a system whose answers are fixed.
use lib_sp.Base.{◌≡◌, refl, inl, true, some, List, [], ◌∷◌, ℤ, pos, minus, arith, length}
use lib_sp.Linux.State.{param_zero, thread_zero}
use lib_sp.Effect.{Ends, returned, blocked}
use lib_sp.Linux.Os.{Call, event, Os, World, call_open, call_pthread_create, call_write, call_read}
use lib_sp.Linux.Port.{init, open_port, close_port, send, set_read_notify, open_flags}
use lib_sp.Linux.Port.History.{Op, op_init, op_open, op_close, op_send, run, perform}
use lib_sp.Linux.Port.Descriptors.{Owns, open_fds, run-Owns}
use lib_sp.Linux.Port.Opening
use lib_sp.Linux.Port.Opening.{Reports, JoinsNone, settings, open_port-Reports, open_port-opened}
use lib_sp.Linux.Port.Locking.{Free, JoinsFree, Held, AllCareful, send-closed_blocks, run-Free}
use lib_sp.Linux.Port.Threads.{Tracks, run-Tracks}
use lib_sp.Linux.Live.{threads, is_among}
use lib_sp.Linux.Reader.{round, rounds, serve, read_locked}
use lib_sp.Linux.Reader.Buffer
use lib_sp.Linux.Reader.Buffer.{Bounded, Safe, rounds-Bounded}
use lib_sp.Linux.Reader.Delivery.{chunks}
use lib_sp.Linux.Reader.Backlog.{Backlogged, Stalled, rounds-Stalled}
use lib_sp.Params.Check.{is_right, map_find, find, get_instance}
use lib_sp.Tests.Checks.{plain, blank}

-- `open` gives descriptor 3, a write writes all and a read reads as many bytes as it may.
abbrev answer : Call → ℤ
answer (call_open path flags) = pos 3
answer (call_write fd d) = pos (length d)
answer (call_read fd n) = pos n
answer c = pos 0

abbrev pub fixed_os : Os
fixed_os = record {
  result = λ _ c. answer c;
  errno = λ _. pos 5;
  attributes = λ _. blank;
  thread_id = λ _. 7;
  pending = λ _. some (pos 3);
  bytes = λ _. b'a' ∷ b'b' ∷ b'c' ∷ [];
  cfsetispeed = λ t _. t;
  cfsetospeed = λ t _. t;
}

-- A system that creates no thread: EAGAIN.
abbrev answer_no_thread : Call → ℤ
answer_no_thread call_pthread_create = pos 11
answer_no_thread c = answer c

abbrev no_thread_os : Os
no_thread_os = record fixed_os { result = λ _ c. answer_no_thread c }

abbrev backlog_os : Os
backlog_os = record fixed_os { pending = λ _. some (pos 2000) }

abbrev ops : List Op
ops = op_init plain (some 1) ∷ op_open ∷ op_send (some (b'x' ∷ b'y' ∷ [])) 2 ∷ op_close ∷ []

-- A closed port with a receiver, and the same port open without a thread and with one.
abbrev pub closed_port : World
closed_port = record {
  param = record param_zero { spp = plain; thread = record thread_zero { precv_data = some 1 } };
  trace = [];
  delivered = [];
}

abbrev opened_port : World
opened_port = record closed_port {
  param = record closed_port.param { fd = pos 3 };
  trace = event (call_open plain.name open_flags) (pos 3) ∷ [];
}

abbrev receiving_port : World
receiving_port = record opened_port {
  param = record opened_port.param {
    thread = record opened_port.thread { thread_recv_is_running = true; thread_recv = 7 };
  };
  trace = event call_pthread_create (pos 0) ∷ opened_port.trace;
}

fixed_Opening : Opening.Documented fixed_os
fixed_Opening = record {
  errno_set = λ c r t h. cc;
  tcsetattr_result = λ t fd options. inl refl;
  create_result = λ t. refl;
}

pub fixed_Serves : Opening.Serves fixed_os
fixed_Serves = record {
  documented = fixed_Opening;
  fcntl_result = λ t fd. refl;
  tcgetattr_result = λ t fd. refl;
  tcsetattr_result = λ t fd options. refl;
  create_result = λ t. refl;
}

fixed_Buffer : Buffer.Documented fixed_os
fixed_Buffer = record { pending_nonneg = λ t n e. ground arith; read_le = λ t fd n. omega arith }

backlog : Backlogged backlog_os []
backlog t e = (2000, refl, omega arith)

closed_Tracks : Tracks fixed_os closed_port
unfolding threads
closed_Tracks = record { alive = refl; opened = λ e. cc; receiving = λ e. cc; unnamed = λ e. refl }

receiving_Tracks : Tracks fixed_os receiving_port
unfolding threads
receiving_Tracks = record {
  alive = refl;
  opened = λ e f. cc;
  receiving = λ e f. cc;
  unnamed = λ e. cc;
}

run-Owns_example : Ends (λ _. Owns) Owns (run fixed_os ops closed_port)
unfolding open_fds
run-Owns_example = run-Owns fixed_os ops closed_port refl

opens_once : open_port fixed_os opened_port ≡ returned (minus 1) opened_port
opens_once = open_port-opened fixed_os opened_port (λ e. cc)

open_port-Reports_example : Ends Reports (JoinsNone fixed_os) (open_port fixed_os closed_port)
open_port-Reports_example = open_port-Reports fixed_os fixed_Opening closed_port refl

send-closed_blocks_example :
    Ends
      (λ _ w'.
        Ends (λ _ u. send fixed_os (some (2 ∷ [])) 1 u ≡ blocked u) Held (run fixed_os ops w'))
      (λ _. ⊥)
      (send fixed_os (some (1 ∷ [])) 1 closed_port)
send-closed_blocks_example =
    send-closed_blocks fixed_os (1 ∷ []) 1 closed_port (omega arith) refl refl ops (2 ∷ []) 1
      (omega arith)

ops-AllCareful : AllCareful fixed_os ops closed_port
unfolding perform init open_port close_port set_read_notify send is_right map_find find get_instance
    is_among threads
ops-AllCareful = (tt, (tt, ((λ e f. cc), (tt, tt))))

run-Free_example : Ends (λ _. Free) (JoinsFree fixed_os) (run fixed_os ops closed_port)
run-Free_example = run-Free fixed_os ops closed_port ops-AllCareful refl

run-Tracks_example : Ends (λ _. Tracks fixed_os) (Tracks fixed_os) (run fixed_os ops closed_port)
run-Tracks_example = run-Tracks fixed_os (λ _. refl) ops closed_port closed_Tracks

-- A thread that cannot be created goes unnoticed.
no_thread_reported : Ends (λ r w. r ≡ pos 0) (λ _. ⊥) (open_port no_thread_os closed_port)
unfolding open_port
no_thread_reported = refl

rounds-Bounded_example : Ends Safe Bounded (rounds fixed_os 5 (pos 0) receiving_port)
rounds-Bounded_example =
    rounds-Bounded fixed_os fixed_Buffer 5 (pos 0) receiving_port (((tt, (tt, tt)), tt), refl)

-- Two rounds hand on two chunks of three bytes.
two_rounds :
    Ends
      (λ _ w. w.delivered ≡ (1, b'a' ∷ b'b' ∷ b'c' ∷ []) ∷ (1, b'a' ∷ b'b' ∷ b'c' ∷ []) ∷ [])
      (λ _. ⊥)
      (rounds fixed_os 2 (pos 0) receiving_port)
unfolding rounds round serve read_locked
two_rounds = refl

rounds-Stalled_example :
    Ends (λ _. Stalled backlog_os [] []) (λ _. ⊥) (rounds backlog_os 9 (pos 0) receiving_port)
unfolding chunks
rounds-Stalled_example = rounds-Stalled backlog_os backlog 9 (pos 0) receiving_port (refl, refl)
