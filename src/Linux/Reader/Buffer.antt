-- ===== src/Linux/Reader/Buffer.antt =====
-- The receive buffer of 1024 bytes is never overrun.
use lib_sp.Base.{
  ℕ, ◌≤◌, ◌≡◌, refl, false, Option, none, some, List, ◌∷◌, ℤ, pos, arith, length, length-take, All,
  is_negative, ◌^◌, ◌%◌, negsuc,
}
use lib_sp.Linux.State.{len_buf_1024}
use lib_sp.Effect.{Ends}
use lib_sp.Linux.Os.{Call, Event, event, Os, World, call_read, call_fionread}
use lib_sp.Linux.Reader.Rounds.{rounds-keeps}
use lib_sp.Linux.Reader.{round, rounds, read_locked, serve, to_length, stored_or}

-- Linux: FIONREAD stores a number of bytes, and `read` returns at most the count that it was
-- given.
pub record Documented (os : Os) : Type 0 where
  pub pending_nonneg : (t : List Event) (n : ℤ) → os.pending t ≡ some n → is_negative n ≡ false
  pub read_le : (t : List Event) (fd : ℤ) (n : ℕ) → to_length (os.result t (call_read fd n)) ≤ n

-- Each `read` of a trace asks for no more bytes than the buffer has.
abbrev pub Fits : Event → Type 0
Fits (event (call_read fd n) r) = n ≤ len_buf_1024
Fits (event c r) = Unit {0}

-- So are the reads of a trace, and what the receiver was handed is no longer than the buffer.
abbrev pub Bounded : World → Type 0
Bounded w = All Fits w.trace × All (λ (d : ℕ × List ℕ). length d.1 ≤ len_buf_1024) w.delivered

-- The same, with a local variable that is not negative.
abbrev pub Safe : ℤ → World → Type 0
Safe h w = Bounded w × (is_negative h ≡ false)

module _ (os : Os) (d : Documented os) where
  serve-Bounded :
      (h : ℤ) (w : World) → is_negative h ≡ false → Bounded w → Ends Safe Bounded (serve os h w)
  unfolding serve read_locked
  serve-Bounded (negsuc n) w nonneg b = cc
  serve-Bounded (pos n) w nonneg b = ground (
    arith,
    d.read_le w.trace w.fd (n % 2 ^ 64),
    length-take (to_length r) (os.bytes (event c r ∷ w.trace)),
  )
    where
      c : Call
      c = call_read w.fd (n % 2 ^ 64)

      r : ℤ
      r = os.result w.trace c

  round-Bounded :
      (has : ℤ) (w : World)
      → is_negative has ≡ false
      → Bounded w
      → Ends Safe Bounded (round os has w)
  unfolding round
  round-Bounded has w nonneg b =
      serve-Bounded _ _ (stored_nonneg (os.pending asked) (d.pending_nonneg asked)) ((tt, b.0), b.1)
    where
      c : Call
      c = call_fionread w.fd

      asked : List Event
      asked = event c (os.result w.trace c) ∷ w.trace

      stored_nonneg :
          (o : Option ℤ)
          → ((n : ℤ) → o ≡ some n → is_negative n ≡ false)
          → is_negative (stored_or has o) ≡ false
      stored_nonneg none h = nonneg
      stored_nonneg (some n) h = h n refl

  -- In any number of rounds of the loop each `read` asks for at most the 1024 bytes of the buffer,
  -- and the receiver is handed at most 1024 bytes at a time, if that was so before and the local
  -- variable is not negative. FIONREAD is assumed to store no negative number, and `read` to return
  -- at most the count that it was given.
  pub rounds-Bounded :
      (n : ℕ) (has : ℤ) (w : World) → Safe has w → Ends Safe Bounded (rounds os n has w)
  rounds-Bounded = rounds-keeps os Safe Bounded (λ h w' k. round-Bounded h w' k.1 k.0)
