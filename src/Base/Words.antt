-- ===== src/Base/Words.antt =====
-- Flag words, such as `tcflag_t`, as their bits: `w i` is bit `i` of the word.
use Prim.Native.Nat.{ℕ, ◌/◌, ◌%◌, ◌^◌}
use mathlib.Core.Bool.{Bool, true, false, not, ◌&&◌, ◌||◌}
use mathlib.Core.Path.{◌≡◌, refl}
use lib_sp.Base.Tests.{◌==◌, if◌then◌else◌}

abbrev pub Word : Type 0
Word = ℕ → Bool

-- Bit `i` of a number.
abbrev pub bits : ℕ → Word
bits n i = n / 2 ^ i % 2 == 1

infixl 65 ◌|=◌ ◌&=~◌
-- `w |= m`
abbrev pub ◌|=◌ : Word → ℕ → Word
◌|=◌ w m i = w i || bits m i

-- `w &= ~m`
abbrev pub ◌&=~◌ : Word → ℕ → Word
◌&=~◌ w m i = w i && not (bits m i)

-- A conditional word, bit by bit.
pub if-apply : (b : Bool) (v w : Word) (i : ℕ) → (if b then v else w) i ≡ (if b then v i else w i)
if-apply true v w i = refl
if-apply false v w i = refl
