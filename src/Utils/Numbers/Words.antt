-- ===== src/Utils/Numbers/Words.antt =====
-- A printed number is one word.
use lib_sp.Base.{
  ℕ, zero, suc, ◌/◌, false, Bool-cases, inl, inr, List, [], ◌∷◌, ltb, ℤ, pos, negsuc, All,
  All-append, ◌≡◌, refl, ap, ◌∙◌, arith,
}
use lib_sp.Utils.Format.{digits}
use lib_sp.Utils.Format.Laws.{digits_small, digits_large}
use lib_sp.Utils.Numbers.{is_space, skip_spaces, word, to_string, val_to_s}

abbrev Spaceless : List ℕ → Type 0
Spaceless = All (λ c. is_space c ≡ false)

digits-Spaceless : (fuel n : ℕ) → Spaceless (digits fuel n)
unfolding digits
digits-Spaceless zero n = tt
digits-Spaceless (suc fuel) n = elim (Bool-cases (ltb n 10)) [
  | inl small ↦ rw (digits_small fuel n (ground arith)) (ground arith, tt)
  | inr large ↦ rw (digits_large fuel n (ground arith)) (
      All-append (λ c. is_space c ≡ false) (digits fuel (n / 10)) _ (digits-Spaceless fuel (n / 10))
        (ground arith, tt))
]

to_string-Spaceless : (z : ℤ) → Spaceless (to_string z)
unfolding to_string
to_string-Spaceless (pos n) = digits-Spaceless (suc n) n
to_string-Spaceless (negsuc n) = (refl, digits-Spaceless (suc (suc n)) (suc n))

word_whole : (s : List ℕ) → Spaceless s → word s ≡ s
unfolding word
word_whole [] h = refl
word_whole (c ∷ s) h = rw (h.0, word_whole s h.1) refl

skip_none : (s : List ℕ) → Spaceless s → skip_spaces s ≡ s
unfolding skip_spaces
skip_none [] h = refl
skip_none (c ∷ s) h = rw h.0 refl

-- `val_to_s` of a whole number is its whole print.
pub val_to_s-to_string : (z : ℤ) → val_to_s z ≡ to_string z
unfolding val_to_s
val_to_s-to_string z =
    let h = to_string-Spaceless z in
    ap word (skip_none (to_string z) h) ∙ word_whole (to_string z) h
