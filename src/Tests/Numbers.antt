-- ===== src/Tests/Numbers.antt =====
-- Conversions of numbers at concrete inputs.
use lib_sp.Base.{◌++◌, pos, minus, codes, ◌≡◌, refl, arith}
use lib_sp.Utils.Numbers.{
  value, invalid_argument, s_to_l, xxs_to_l, xxs_to_i, parse, skip_spaces, with_sign, magnitude,
  scan, to_string, val_to_s,
}
use lib_sp.Utils.Numbers.RoundTrip.{number_roundtrip}

number_roundtrip_example :
    (s_to_l 64 (to_string (minus 42) ++ codes " mm") 10 ≡ minus 42)
    × (xxs_to_l 64 (to_string (minus 42) ++ codes " mm") 10 ≡ value (minus 42))
    × (s_to_l 64 (val_to_s (minus 42)) 10 ≡ minus 42)
number_roundtrip_example = number_roundtrip 64 (minus 42) (codes " mm") refl (omega arith)

-- Other bases, and texts without a number.
hexadecimal : xxs_to_i (codes " 0x1F") 16 ≡ value (pos 31)
unfolding xxs_to_l parse skip_spaces with_sign magnitude scan
hexadecimal = refl

octal : xxs_to_i (codes "017") 0 ≡ value (pos 15)
unfolding xxs_to_l parse skip_spaces with_sign magnitude scan
octal = refl

no_number : xxs_to_i (codes "COM1") 10 ≡ invalid_argument
unfolding xxs_to_l parse skip_spaces with_sign magnitude scan
no_number = refl
