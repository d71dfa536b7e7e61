-- ===== src/Interface/Contract.antt =====
-- What the interface promises: an abstract port with three states, and what it means that an
-- implementation refines it.
use lib_sp.Base.{
  ℕ, Option, Bool, true, false, none, some, ℤ, pos, minus, eq_ℤ, ◌≡◌, ◌≢◌, ◌⊎◌, if◌then◌else◌,
}
use lib_sp.Effect.{Ends, returned}
use lib_sp.Params.Enums.{mode_async}
use lib_sp.Params.Props.{Platform, os_is_linux, os_is_win}
use lib_sp.Params.Check.{get_instance, is_right}
use lib_sp.Interface.{SerialPort, Op, op_init, op_open, op_close, op_set_read_notify, op_send, call}

-- Before a call of `init` has succeeded, closed, and open.
pub data View : Type 0 where
  fresh ready opened : View

abbrev pub is_open : View → Bool
is_open opened = true
is_open _ = false

-- After `init` with the code `c`.
abbrev pub after_init : ℤ → View → View
after_init c fresh = if eq_ℤ (pos 0) c then ready else fresh
after_init c ready = ready
after_init c opened = opened

abbrev pub after_close : View → View
after_close fresh = fresh
after_close ready = ready
after_close opened = ready

abbrev pub close_code : View → ℤ
close_code opened = pos 0
close_code _ = minus 1

-- On Linux a port without a receiver has no thread that `close` can join.
abbrev pub NamesReceiver : Platform → Option ℕ → View → Type 0
NamesReceiver os_is_linux r v = v ≡ fresh → r ≢ none
NamesReceiver os_is_win r v = Unit

-- The calls that a client may make: `init` with properties of the asynchronous mode, which ask for a
-- log only as long as no `init` has succeeded, and on Linux name a receiver at least until then,
-- `open` of a port that is initialised and closed, and `send` of some data on an open port.
abbrev pub Permitted : Platform → Op → View → Type 0
Permitted os (op_init spp r) v =
    (spp.op_mode ≡ mode_async) × ((v ≡ fresh) ⊎ (spp.is_to_log ≡ false)) × NamesReceiver os r v
Permitted os op_open v = v ≡ ready
Permitted os op_close v = Unit
Permitted os (op_set_read_notify n) v = Unit
Permitted os (op_send none n) v = Unit
Permitted os (op_send (some d) n) v = n ≢ 0 → v ≡ opened

-- The codes that a call may return in a state, and the state that it leads to.
abbrev pub Allowed : Platform → Op → View → ℤ → View → Type 0
Allowed os (op_init spp r) v c v' = (c ≡ is_right (get_instance os) spp) × (v' ≡ after_init c v)
Allowed os op_open v c v' = ((c ≡ pos 0) × (v' ≡ opened)) ⊎ ((c ≢ pos 0) × (v' ≡ ready))
Allowed os op_close v c v' = (c ≡ close_code v) × (v' ≡ after_close v)
Allowed os (op_set_read_notify n) v c v' = (c ≡ pos 0) × (v' ≡ v)
Allowed os (op_send none n) v c v' = (c ≡ minus 1) × (v' ≡ v)
Allowed os (op_send (some d) n) v c v' = (n ≡ 0 → c ≡ minus 1) × (v' ≡ v)

-- The implementation `p` refines the abstract port by the relation `Shows`: the constructor shows
-- the first state, each permitted call returns with an allowed code and shows the state that goes
-- with it, `is_opened` tells whether the port is open, and the destructor closes it.
pub record Refines (os : Platform) (p : SerialPort) : Type 1 where
  pub Shows : View → p.State → Type 0
  pub shows_create : Shows fresh p.create
  pub shows_call :
      (o : Op) (v : View) (w : p.State)
      → Permitted os o v
      → Shows v w
      → Ends (λ c w'. (v' : View) × Allowed os o v c v' × Shows v' w') (λ _. ⊥) (call p o w)
  pub shows_is_opened :
      (v : View) (w : p.State) → Shows v w → p.is_opened w ≡ returned (is_open v) w
  pub shows_destroy :
      (v : View) (w : p.State)
      → Shows v w
      → Ends (λ _ w'. Shows (after_close v) w') (λ _. ⊥) (p.destroy w)

pub names_receiver : (os : Platform) (r : ℕ) (v : View) → NamesReceiver os (some r) v
names_receiver os_is_linux r v = λ e f. cc
names_receiver os_is_win r v = tt
