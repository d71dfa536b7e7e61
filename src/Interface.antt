-- ===== src/Interface.antt =====
-- include/serial_port/serial_port_interface.h: `iserial_port`, with `sp_create` and `sp_release` of
-- src/serial_port_interface.cpp, and the contract that both implementations meet.
pub mod Contract
pub mod History
use lib_sp.Base.{ℕ, Bool, true, false, Option, none, some, List, [], ◌∷◌, ℤ, pos}
use lib_sp.Effect.{M, Outcome, returned, blocked, pure, ◌>>=◌, ◌>>◌}
use lib_sp.Params.Props.{SpProp, SpNameDesc}

-- The methods, over the state of the object and of the system that it uses. `create` is what the
-- constructor leaves behind.
pub record SerialPort : Type 1 where
  pub State : Type 0
  pub create : State
  pub init : SpProp → Option ℕ → M State ℤ
  pub open_port : M State ℤ
  pub close_port : M State ℤ
  pub set_read_notify : ℕ → M State (Unit {0})
  pub is_opened : M State Bool
  pub send : Option (List ℕ) → ℕ → M State ℤ
  pub get_version : List ℕ
  pub get_available_serial_port : List SpNameDesc
  pub destroy : M State (Unit {0})

-- A call of one of the methods.
pub data Op : Type 0 where
  op_init : SpProp → Option ℕ → Op
  op_open : Op
  op_close : Op
  op_set_read_notify : ℕ → Op
  op_send : Option (List ℕ) → ℕ → Op

-- What a caller does: it ends, or makes a call and goes on as the code tells.
pub data Session : Type 0 where
  ends : Session
  calls : (o : Op) (next : ℤ → Session) → Session

-- `sp_create` gives `nullptr` where there is no memory for the object.
abbrev pub sp_create : (p : SerialPort) → Bool → Option p.State
sp_create p has_memory = elim has_memory [ true ↦ some p.create | false ↦ none ]

module _ (p : SerialPort) where
  -- The code of a call; `set_read_notify` has none and counts as 0.
  unfoldable pub call : Op → M p.State ℤ
  call (op_init spp r) = p.init spp r
  call op_open = p.open_port
  call op_close = p.close_port
  call (op_set_read_notify n) = do p.set_read_notify n; pure (pos 0)
  call (op_send d n) = p.send d n

  -- The calls of a session with their codes.
  unfoldable pub play : Session → M p.State (List (Op × ℤ))
  unfolding call
  play ends = pure []
  play (calls o next) = do c ← call o; log ← play (next c); pure ((o, c) ∷ log)

  -- `delete` of a pointer that may be null. `iserial_port` has no virtual destructor, so C++ does
  -- not define what `delete` of a port through it does; `runs_destructor` tells whether the
  -- compiled code runs the port's destructor or only frees the memory.
  unfoldable pub sp_release : Bool → Option p.State → M p.State (Unit {0})
  sp_release runs_destructor none = pure tt
  sp_release false (some _) = pure tt
  sp_release true (some _) = p.destroy
