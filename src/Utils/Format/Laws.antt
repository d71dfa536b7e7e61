-- ===== src/Utils/Format/Laws.antt =====
-- What a formatted text holds, and what can be read from it again.
use mathlib.Core.List.{append_assoc}
use lib_sp.Base.{
  ℕ, zero, suc, ◌+◌, ◌-◌, ◌*◌, ◌/◌, ◌%◌, ◌<◌, ◌≤◌, true, false, List, [], ◌∷◌, ◌++◌, ltb, ◌==◌,
  take, length, arith, ◌≡◌, refl, ap, ◌∙◌, Bool-cases, inl, inr,
}
use lib_sp.Utils.Format.{digits, print, format_text, str_format, version_format, written}

-- The numbers that dots separate; `n` is the number read so far.
unfoldable pub read_numbers : ℕ → List ℕ → List ℕ
read_numbers n [] = n ∷ []
read_numbers n (c ∷ s) = elim (c == b'.') [
  | true ↦ n ∷ read_numbers 0 s
  | false ↦ read_numbers (n * 10 + (c - b'0')) s
]

read_digit :
    (n d : ℕ) (s : List ℕ) → d < 10 → read_numbers n ((b'0' + d) ∷ s) ≡ read_numbers (n * 10 + d) s
unfolding read_numbers
read_digit n d s h = ground arith

pub digits_small : (fuel n : ℕ) → n < 10 → digits (suc fuel) n ≡ (b'0' + n) ∷ []
unfolding digits
digits_small fuel n h = ground arith

pub digits_large :
    (fuel n : ℕ) → 10 ≤ n → digits (suc fuel) n ≡ digits fuel (n / 10) ++ (b'0' + n % 10) ∷ []
unfolding digits
digits_large fuel n h = ground arith

-- What reads a digit after the number so far reads the digits of a number after nothing.
pub read_all-digits :
    {X : Type 0} (f : ℕ → List ℕ → X)
    → ((n d : ℕ) (s : List ℕ) → d < 10 → f n ((b'0' + d) ∷ s) ≡ f (n * 10 + d) s)
    → (fuel n : ℕ) (s : List ℕ) → n < fuel
    → f 0 (digits fuel n ++ s) ≡ f n s
read_all-digits f step zero n s h = ground arith
read_all-digits f step (suc fuel) n s h = elim (Bool-cases (ltb n 10)) [
  | inl small ↦
      rw (digits_small fuel n (ground arith))
        (step 0 n s (ground arith) ∙ ap (λ m. f m s) (omega arith))
  | inr large ↦
      rw
        (
          digits_large fuel n (ground arith),
          append_assoc (digits fuel (n / 10)) ((b'0' + n % 10) ∷ []) s,
          read_all-digits f step fuel (n / 10) ((b'0' + n % 10) ∷ s) (ground arith),
          step (n / 10) (n % 10) s (omega arith),
        )
        (ap (λ m. f m s) (omega arith))
]

read-print : (n : ℕ) (s : List ℕ) → read_numbers 0 (print n ++ s) ≡ read_numbers n s
read-print n s = read_all-digits read_numbers read_digit (suc n) n s (omega arith)

take-length : (s r : List ℕ) → take (length s) (s ++ r) ≡ s
take-length [] r = refl
take-length (x ∷ s) r = ap (λ t. x ∷ t) (take-length s r)

take_all : (s : List ℕ) → take (length s) s ≡ s
take_all [] = refl
take_all (x ∷ s) = ap (λ t. x ∷ t) (take_all s)

whole : (s : List ℕ) → take (length s + 1 - 1) (written (length s + 1) s) ≡ s
whole s =
    let e : length s + 1 - 1 ≡ length s = omega arith in rw (e, take_all s) (take-length s (0 ∷ []))

-- `str_format` gives the whole text of `snprintf`, without its final null character.
str_format-whole : (format args : List ℕ) → str_format true format args ≡ format_text format args
unfolding str_format
str_format-whole format args = whole (format_text format args)

read_field : (n : ℕ) (s : List ℕ) → read_numbers 0 (print n ++ b'.' ∷ s) ≡ n ∷ read_numbers 0 s
unfolding read_numbers
read_field n s = read-print n (b'.' ∷ s)

-- The version string of any four numbers reads back as those numbers: neither `str_format` nor
-- `snprintf` loses a digit or a dot, however many digits the numbers have.
version_roundtrip :
    (a b c d : ℕ)
    → read_numbers 0 (str_format true version_format (a ∷ b ∷ c ∷ d ∷ [])) ≡ a ∷ b ∷ c ∷ d ∷ []
unfolding format_text read_numbers
version_roundtrip a b c d =
    ap (read_numbers 0) (str_format-whole version_format (a ∷ b ∷ c ∷ d ∷ []))
    ∙ read_field a _
    ∙ ap (λ r. a ∷ r)
        (read_field b _ ∙ ap (λ r. b ∷ r) (read_field c _ ∙ ap (λ r. c ∷ r) (read-print d [])))
