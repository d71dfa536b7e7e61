-- ===== src/Utils/Numbers.antt =====
-- src/utils.cpp and include/utils.h: the conversions between whole numbers and strings. They call
-- `strtol` and its kin, which are written out here as the C standard describes them in the "C"
-- locale; `w` is the width of the type in bits.
pub mod Scan
pub mod Words
pub mod RoundTrip
use lib_sp.Base.{
  ℕ, zero, suc, ◌+◌, ◌-◌, ◌*◌, ◌^◌, ◌%◌, Bool, true, false, ◌&&◌, ◌||◌, Option, none, some, List,
  [], ◌∷◌, ◌++◌, ltb, leb, ◌==◌, ℤ, pos, negsuc, minus, if◌then◌else◌,
}
use lib_sp.Utils.Format.{print}

-- `std::to_string`
unfoldable pub to_string : ℤ → List ℕ
to_string (pos n) = print n
to_string (negsuc n) = b'-' ∷ print (suc n)

-- `isspace`
abbrev pub is_space : ℕ → Bool
is_space c = c == 32 || (leb 9 c && leb c 13)

unfoldable pub skip_spaces : List ℕ → List ℕ
skip_spaces [] = []
skip_spaces (c ∷ s) = if is_space c then skip_spaces s else c ∷ s

-- The value of a character as a digit, and 36 for any other character.
abbrev pub digit_value : ℕ → ℕ
digit_value c =
    if leb b'0' c && leb c b'9'
    then c - b'0'
    else if leb b'a' c && leb c b'z'
    then c - b'a' + 10
    else if leb b'A' c && leb c b'Z'
    then c - b'A' + 10
    else 36

abbrev pub is_digit : ℕ → ℕ → Bool
is_digit base c = ltb (digit_value c) base

-- The digits at the start of a text, behind those that spell `n`.
unfoldable pub scan : ℕ → ℕ → List ℕ → ℕ
scan base n [] = n
scan base n (c ∷ s) = if is_digit base c then scan base (n * base + digit_value c) s else n

-- A number without its sign, or `none` where no digit is found.
abbrev pub scan_digits : ℕ → List ℕ → Option ℕ
scan_digits base [] = none
scan_digits base (c ∷ s) = if is_digit base c then some (scan base 0 (c ∷ s)) else none

abbrev pub is_x : ℕ → Bool
is_x c = c == b'x' || c == b'X'

-- What follows the sign. With base 16 or 0 a hexadecimal prefix is passed over where a digit
-- follows it; base 0 is 8 where a zero stands first, and else 10.
unfoldable pub magnitude : ℕ → List ℕ → Option ℕ
unfolding scan
magnitude base (z ∷ x ∷ c ∷ s) =
    if z == b'0' && (is_x x && (is_digit 16 c && (base == 16 || base == 0)))
    then some (scan 16 0 (c ∷ s))
    else scan_digits (if base == 0 then (if z == b'0' then 8 else 10) else base) (z ∷ x ∷ c ∷ s)
magnitude base (z ∷ s) =
    scan_digits (if base == 0 then (if z == b'0' then 8 else 10) else base) (z ∷ s)
magnitude base [] = none

-- What is read from a text: nothing, or a sign and a number.
pub data Parsed : Type 0 where
  nothing : Parsed
  plus minus_sign : ℕ → Parsed

unfoldable pub with_sign : ℕ → List ℕ → Parsed
unfolding magnitude
with_sign base [] = nothing
with_sign base (c ∷ s) =
    if c == b'-'
    then elim (magnitude base s) [ none ↦ nothing | some n ↦ minus_sign n ]
    else elim (magnitude base (if c == b'+' then s else c ∷ s)) [ none ↦ nothing | some n ↦ plus n ]

unfoldable pub parse : ℕ → List ℕ → Parsed
unfolding skip_spaces with_sign
parse base s = with_sign base (skip_spaces s)

-- The result of `strtol` with the end of the range where the number is past it, and whether it is.
abbrev pub is_past : ℕ → Parsed → Bool
is_past w nothing = false
is_past w (plus n) = leb (2 ^ (w - 1)) n
is_past w (minus_sign n) = ltb (2 ^ (w - 1)) n

abbrev pub clamp : ℕ → Parsed → ℤ
clamp w nothing = pos 0
clamp w (plus n) = if leb (2 ^ (w - 1)) n then pos (2 ^ (w - 1) - 1) else pos n
clamp w (minus_sign n) =
    if ltb (2 ^ (w - 1)) n then minus (2 ^ (w - 1)) else if n == 0 then pos 0 else minus n

-- `s_to_l`; `w` is the width of `long`.
unfoldable pub s_to_l : ℕ → List ℕ → ℕ → ℤ
unfolding parse
s_to_l w str base = clamp w (parse base str)

-- `std::stoi` and its kin throw where there is no number, or one past the range.
pub data Converted (A : Type 0) : Type 0 where
  value : A → Converted A
  invalid_argument out_of_range : Converted A

abbrev converted : ℕ → Parsed → Converted ℤ
converted w nothing = invalid_argument
converted w (plus n) = if is_past w (plus n) then out_of_range else value (clamp w (plus n))
converted w (minus_sign n) =
    if is_past w (minus_sign n) then out_of_range else value (clamp w (minus_sign n))

-- `xxs_to_l`; `w` is the width of `long`.
unfoldable pub xxs_to_l : ℕ → List ℕ → ℕ → Converted ℤ
unfolding parse
xxs_to_l w str base = converted w (parse base str)

abbrev pub xxs_to_i : List ℕ → ℕ → Converted ℤ
xxs_to_i = xxs_to_l 32

abbrev pub xxs_to_ll : List ℕ → ℕ → Converted ℤ
xxs_to_ll = xxs_to_l 64

-- `strtoul` takes a sign, and a negative number wraps around.
abbrev unsigned : ℕ → Parsed → Converted ℕ
unsigned w nothing = invalid_argument
unsigned w (plus n) = if leb (2 ^ w) n then out_of_range else value n
unsigned w (minus_sign n) = if leb (2 ^ w) n then out_of_range else value ((2 ^ w - n) % 2 ^ w)

-- `xxs_to_ul`; `w` is the width of `unsigned long`.
unfoldable pub xxs_to_ul : ℕ → List ℕ → ℕ → Converted ℕ
unfolding parse
xxs_to_ul w str base = unsigned w (parse base str)

abbrev pub xxs_to_ull : List ℕ → ℕ → Converted ℕ
xxs_to_ull = xxs_to_ul 64

-- `to_str` of a whole number
abbrev pub to_str : ℤ → List ℕ
to_str = to_string

-- The characters up to the first space.
unfoldable pub word : List ℕ → List ℕ
word [] = []
word (c ∷ s) = if is_space c then [] else c ∷ word s

-- `val_to_s` of a whole number: `>>` passes over spaces and reads up to the next.
unfoldable pub val_to_s : ℤ → List ℕ
unfolding to_string skip_spaces word
val_to_s val = word (skip_spaces (to_string val))
