-- ===== src/Win/Contract.antt =====
-- `serial_port_win_base` as an implementation of the interface.
pub mod Refinement
use lib_sp.Base.{
  zero, suc, eq_ℤ→eq, negsuc, if◌then◌else◌, sym, ◌∙◌, ap, not, eq_ℤ, Bool-cases, ℕ, Bool, true,
  false, Option, none, some, List, [], ℤ, pos, minus, ◌==◌, ◌≡◌, ◌≢◌, ◌⊎◌, ◌↔◌, inl, inr, refl,
  arith,
}
use lib_sp.Effect.{
  Outcome, returned, blocked, Ends, Ends-mono, Ends-weaken, Ends-if, Ends-bind, pure,
}
use lib_sp.Params.Enums.{mode_async}
use lib_sp.Params.Props.{os_is_win, SpProp, SpNameDesc}
use lib_sp.Params.Check.{is_right, get_instance}
use lib_sp.Interface.{SerialPort, Op, op_init, op_open, op_close, op_set_read_notify, op_send, call}
use lib_sp.Interface.Contract.{
  View, fresh, ready, opened, Permitted, Allowed, Refines, after_init, after_close, is_open,
  close_code,
}
use lib_sp.Win.State.{CommInfoWin, invalid_handle_value}
use lib_sp.Win.Os.{Os, World}
use lib_sp.Win.Port.{new, init, close_port, set_read_notify, is_opened, destroy}
use lib_sp.Win.Port.Open.{open_port}
use lib_sp.Win.Port.Send.{send}
use lib_sp.Win.Port.Logging.{registered}
use lib_sp.Win.Port.Closing.{Free, Opened, Closed, close_port-Closed}
use lib_sp.Win.Port.Opening.{Answered, open_port-Answered}
use lib_sp.Win.Port.Sending.{SentAsync, send-async_leaks}
use lib_sp.Utils.Format.{get_version}

-- The object that the constructor leaves, in memory that holds `c`. What `param` holds before is
-- overwritten.
abbrev pub created : Os → World → CommInfoWin → World
created os w c = elim (new os c w) [ returned _ u ↦ u | blocked u ↦ u ]

module _ (os : Os) (before : World) (c : CommInfoWin) (ports : List SpNameDesc) where
  abbrev pub win_port : SerialPort
  win_port = record {
    State = World;
    create = created os before c;
    init = init os;
    open_port = open_port os;
    close_port = close_port os;
    set_read_notify = set_read_notify;
    is_opened = is_opened;
    send = send os;
    get_version = get_version true;
    get_available_serial_port = ports;
    destroy = destroy os;
  }

-- Nobody holds the mutex, and the object has a device exactly in the state `opened`. Before `init`
-- the name of the logger is free.
abbrev pub Shows : View → World → Type 0
Shows opened w =
    Free w
    × (w.comm_handle ≢ invalid_handle_value)
    × (w.is_init ≡ true)
    × (w.spp.op_mode ≡ mode_async)
Shows ready w =
    Free w
    × (w.comm_handle ≡ invalid_handle_value)
    × (w.is_init ≡ true)
    × (w.spp.op_mode ≡ mode_async)
Shows fresh w = Free w × (w.comm_handle ≡ invalid_handle_value) × (registered w.trace ≡ false)

-- A state that the call `o` may lead to, with its code.
abbrev pub Step : Op → View → ℤ → World → Type 0
Step o v c w' = (v' : View) × Allowed os_is_win o v c v' × Shows v' w'
