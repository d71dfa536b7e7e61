-- ===== src/Utils/Numbers/RoundTrip.antt =====
-- What the conversions give for a printed number, in and out of the range of the type.
use mathlib.Core.List.{append-nil}
use lib_sp.Base.{
  ℕ, suc, ◌-◌, ◌%◌, ◌^◌, ◌<◌, List, [], ◌++◌, ℤ, pos, negsuc, minus, ◌≡◌, sym, ap, ◌∙◌, arith,
}
use lib_sp.Utils.Numbers.{
  value, s_to_l, xxs_to_l, xxs_to_ul, clamp, converted, unsigned, parse, to_string, val_to_s,
}
use lib_sp.Utils.Numbers.Words.{val_to_s-to_string}
use lib_sp.Utils.Numbers.Scan.{Stops, parsed_of, parse-to_string}

-- The range of a signed type of `w` bits.
abbrev pub InRange : ℕ → ℤ → Type 0
InRange w (pos n) = n < 2 ^ (w - 1)
InRange w (negsuc n) = n < 2 ^ (w - 1)

-- The end of the range that lies on the side of a number.
abbrev pub limit : ℕ → ℤ → ℤ
limit w (pos n) = pos (2 ^ (w - 1) - 1)
limit w (negsuc n) = minus (2 ^ (w - 1))

clamp-InRange : (w : ℕ) (z : ℤ) → InRange w z → clamp w (parsed_of z) ≡ z
clamp-InRange w (pos n) h = ground arith
clamp-InRange w (negsuc n) h = ground arith

converted-InRange : (w : ℕ) (z : ℤ) → InRange w z → converted w (parsed_of z) ≡ value z
converted-InRange w (pos n) h = ground arith
converted-InRange w (negsuc n) h = ground arith

-- A number in the range of the type is read back from its print, whatever follows that does not go
-- on with a digit: by `s_to_l`, and by `xxs_to_i`, `xxs_to_l` and `xxs_to_ll`, which then throw
-- nothing. `s_to_l` also reads back what `val_to_s` gives.
pub number_roundtrip :
    (w : ℕ) (z : ℤ) (rest : List ℕ)
    → Stops rest
    → InRange w z
    → (s_to_l w (to_string z ++ rest) 10 ≡ z)
      × (xxs_to_l w (to_string z ++ rest) 10 ≡ value z)
      × (s_to_l w (val_to_s z) 10 ≡ z)
unfolding s_to_l xxs_to_l
number_roundtrip w z rest stops h =
    let read = parse-to_string z rest stops in
    let alone =
      ap (parse 10) (val_to_s-to_string z ∙ sym (append-nil (to_string z)))
      ∙ parse-to_string z [] tt in
    (
      ap (clamp w) read ∙ clamp-InRange w z h,
      ap (converted w) read ∙ converted-InRange w z h,
      ap (clamp w) alone ∙ clamp-InRange w z h,
    )

-- What an unsigned conversion gives for a number: a negative one wraps around.
abbrev pub wrapped : ℕ → ℤ → ℕ
wrapped w (pos n) = n
wrapped w (negsuc n) = 2 ^ w - suc n

abbrev pub InUnsigned : ℕ → ℤ → Type 0
InUnsigned w (pos n) = n < 2 ^ w
InUnsigned w (negsuc n) = suc n < 2 ^ w

wrap_small : (m n : ℕ) → suc n < m → (m - suc n) % m ≡ m - suc n
wrap_small m n h = grind arith

unsigned-wrapped : (w : ℕ) (z : ℤ) → InUnsigned w z → unsigned w (parsed_of z) ≡ value (wrapped w z)
unsigned-wrapped w (pos n) h = ground arith
unsigned-wrapped w (negsuc n) h = ground (arith, wrap_small (2 ^ w) n h)

-- `xxs_to_ul` and `xxs_to_ull` read back a number that is not negative; a negative number is no
-- error for them, but is taken modulo `2 ^ w`.
unsigned_roundtrip :
    (w : ℕ) (z : ℤ) (rest : List ℕ)
    → Stops rest
    → InUnsigned w z
    → xxs_to_ul w (to_string z ++ rest) 10 ≡ value (wrapped w z)
unfolding xxs_to_ul
unsigned_roundtrip w z rest stops h =
    ap (unsigned w) (parse-to_string z rest stops) ∙ unsigned-wrapped w z h
