-- ===== src/Linux/Port/Opening.antt =====
-- What `open`, `close` and `send` report, and in which state they leave the port.
use lib_sp.Base.{
  ◌≡◌, ◌≢◌, ◌⊎◌, Bool, not, true, false, Option, none, some, List, [], ◌∷◌, ℤ, pos, minus, eq_ℤ,
  arith, if◌then◌else◌, is_negative,
}
use lib_sp.Linux.Termios.{Termios, configure}
use lib_sp.Linux.State.{invalid_value}
use lib_sp.Effect.{Ends, returned}
use lib_sp.Linux.Os.{
  Call, Event, event, Os, World, call_fcntl, call_tcgetattr, call_tcsetattr, call_pthread_create,
}
use lib_sp.Linux.Live.{threads, is_among, Unjoinable}
use lib_sp.Linux.Port.{open_port}

-- POSIX: a call that fails sets `errno` to a number other than 0, `tcsetattr` returns 0 or -1, and
-- `pthread_create` returns 0 or an error number.
pub record Documented (os : Os) : Type 0 where
  pub errno_set :
      (c : Call) (r : ℤ) (t : List Event) → is_negative r ≡ true → os.errno (event c r ∷ t) ≢ pos 0
  pub tcsetattr_result :
      (t : List Event) (fd : ℤ) (options : Termios)
      → (os.result t (call_tcsetattr fd options) ≡ pos 0)
        ⊎ (os.result t (call_tcsetattr fd options) ≡ minus 1)
  pub create_result : (t : List Event) → is_negative (os.result t call_pthread_create) ≡ false

-- The device can be set up, and a thread can be created.
pub record Serves (os : Os) : Type 0 where
  pub documented : Documented os
  pub fcntl_result : (t : List Event) (fd : ℤ) → is_negative (os.result t (call_fcntl fd)) ≡ false
  pub tcgetattr_result :
      (t : List Event) (fd : ℤ) → is_negative (os.result t (call_tcgetattr fd)) ≡ false
  pub tcsetattr_result :
      (t : List Event) (fd : ℤ) (options : Termios)
      → os.result t (call_tcsetattr fd options) ≡ pos 0
  pub create_result : (t : List Event) → os.result t call_pthread_create ≡ pos 0

-- The newest call is one of the set-up of the device, and it has failed.
unfoldable pub failed_setup : List Event → Bool
failed_setup (event (call_fcntl fd) r ∷ t) = is_negative r
failed_setup (event (call_tcgetattr fd) r ∷ t) = is_negative r
failed_setup (event (call_tcsetattr fd options) r ∷ t) = not (eq_ℤ (pos 0) r)
failed_setup _ = false

-- `close` is about to join a handle that names no thread, after the set-up of an open device has
-- failed.
abbrev pub JoinsNone : Os → World → Type 0
JoinsNone os w = (w.fd ≢ invalid_value) × (failed_setup w.trace ≡ true) × Unjoinable os w

-- The attributes that the newest successful `tcsetattr` has set.
unfoldable pub settings : List Event → Option Termios
settings [] = none
settings (event (call_tcsetattr fd options) r ∷ t) =
    if eq_ℤ (pos 0) r then some options else settings t
settings (event c r ∷ t) = settings t

-- 0 from an open port, any other code from a closed one.
abbrev pub Reports : ℤ → World → Type 0
Reports r w = ((r ≡ pos 0) × (w.fd ≢ invalid_value)) ⊎ ((r ≢ pos 0) × (w.fd ≡ invalid_value))

-- `open` has failed, or the newest attributes that the device has accepted are those that
-- `set_port_params` computes from the property set of `w`.
abbrev pub Configured : World → ℤ → World → Type 0
Configured w r w' = (r ≢ pos 0) ⊎ ((t : Termios) × (settings w'.trace ≡ some (configure w.spp t)))

module _ (os : Os) where
  -- `open` of an open port returns -1, makes no call and changes nothing.
  pub open_port-opened : (w : World) → w.fd ≢ invalid_value → open_port os w ≡ returned (minus 1) w
  unfolding open_port
  open_port-opened w h = ground arith

  -- On a system that follows POSIX `open` of a closed port ends in one of two ways. It returns, and
  -- its code is 0 exactly if the port is open afterwards; or `fcntl`, `tcgetattr` or `tcsetattr` has
  -- failed, and the `close` that follows joins a handle that names no thread, which has no defined
  -- behaviour, with the device still open.
  pub open_port-Reports :
      Documented os
      → (w : World) → w.fd ≡ invalid_value
      → Ends Reports (JoinsNone os) (open_port os w)
  unfolding open_port threads is_among failed_setup
  open_port-Reports d w h = grind (arith, d.errno_set, d.create_result, d.tcsetattr_result)
