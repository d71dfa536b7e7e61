-- ===== src/Utils/Numbers/Scan.antt =====
-- What is read from a printed number.
use lib_sp.Base.{
  ℕ, zero, suc, ◌+◌, ◌*◌, ◌/◌, ◌<◌, true, false, Bool-cases, inl, inr, List, [], ◌∷◌, ◌++◌, ltb, ℤ,
  pos, negsuc, ◌≡◌, refl, sym, ap, ◌∙◌, arith,
}
use lib_sp.Utils.Format.{digits, print}
use lib_sp.Utils.Format.Laws.{read_all-digits, digits_small, digits_large}
use lib_sp.Utils.Numbers.{
  skip_spaces, is_digit, scan, scan_digits, magnitude, Parsed, plus, minus_sign, with_sign, parse,
  to_string,
}

-- A text that does not go on with a decimal digit.
abbrev pub Stops : List ℕ → Type 0
Stops [] = Unit
Stops (c ∷ s) = is_digit 10 c ≡ false

scan_stop : (n : ℕ) (s : List ℕ) → Stops s → scan 10 n s ≡ n
unfolding scan
scan_stop n [] h = refl
scan_stop n (c ∷ s) h = rw h refl

scan_digit : (n d : ℕ) (s : List ℕ) → d < 10 → scan 10 n ((b'0' + d) ∷ s) ≡ scan 10 (n * 10 + d) s
unfolding scan
scan_digit n d s h = ground arith

-- A printed number starts with a digit.
abbrev Starts : List ℕ → Type 0
Starts t = (c : ℕ) × (s : List ℕ) × (t ≡ c ∷ s) × (is_digit 10 c ≡ true)

Starts-append : (t r : List ℕ) → Starts t → Starts (t ++ r)
Starts-append t r (c, s, e, d) = (c, s ++ r, ap (λ u. u ++ r) e, d)

digit_first : (d : ℕ) → d < 10 → is_digit 10 (b'0' + d) ≡ true
digit_first d h = ground arith

digits-Starts : (fuel n : ℕ) → n < fuel → Starts (digits fuel n)
digits-Starts zero n h = ground arith
digits-Starts (suc fuel) n h = elim (Bool-cases (ltb n 10)) [
  | inl small ↦ (b'0' + n, [], digits_small fuel n (ground arith), digit_first n (ground arith))
  | inr large ↦
      rw (digits_large fuel n (ground arith))
        (Starts-append (digits fuel (n / 10)) _ (digits-Starts fuel (n / 10) (ground arith)))
]

magnitude_decimal : (s : List ℕ) → magnitude 10 s ≡ scan_digits 10 s
unfolding magnitude
magnitude_decimal [] = refl
magnitude_decimal (z ∷ []) = refl
magnitude_decimal (z ∷ x ∷ []) = refl
magnitude_decimal (z ∷ x ∷ c ∷ s) = ground arith

parse_plus :
    (c : ℕ) (s : List ℕ) → is_digit 10 c ≡ true → parse 10 (c ∷ s) ≡ plus (scan 10 0 (c ∷ s))
unfolding parse skip_spaces with_sign
parse_plus c s h = ground (arith, magnitude_decimal (c ∷ s))

parse_minus :
    (c : ℕ) (s : List ℕ)
    → is_digit 10 c ≡ true
    → parse 10 (b'-' ∷ c ∷ s) ≡ minus_sign (scan 10 0 (c ∷ s))
unfolding parse skip_spaces with_sign
parse_minus c s h = ground (arith, magnitude_decimal (c ∷ s))

abbrev pub parsed_of : ℤ → Parsed
parsed_of (pos n) = plus n
parsed_of (negsuc n) = minus_sign (suc n)

scan-print : (n : ℕ) (s : List ℕ) → Stops s → scan 10 0 (print n ++ s) ≡ n
scan-print n s h = read_all-digits (scan 10) scan_digit (suc n) n s (omega arith) ∙ scan_stop n s h

-- A printed number is read whole, and what follows it is passed over.
pub parse-to_string :
    (z : ℤ) (rest : List ℕ) → Stops rest → parse 10 (to_string z ++ rest) ≡ parsed_of z
unfolding to_string
parse-to_string (pos n) rest h =
    let (c, s, e, d) = Starts-append (print n) rest (digits-Starts (suc n) n (omega arith)) in
    ap (parse 10) e ∙ parse_plus c s d ∙ ap plus (ap (scan 10 0) (sym e) ∙ scan-print n rest h)
parse-to_string (negsuc n) rest h =
    let (c, s, e, d) =
      Starts-append (print (suc n)) rest (digits-Starts (suc (suc n)) (suc n) (omega arith)) in
    ap (λ t. parse 10 (b'-' ∷ t)) e
    ∙ parse_minus c s d
    ∙ ap minus_sign (ap (scan 10 0) (sym e) ∙ scan-print (suc n) rest h)
