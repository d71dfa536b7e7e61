-- ===== src/Base/Text.antt =====
-- Byte strings: literals, and the part of a path behind its last separator.
use Prim.Native.Nat.{ℕ, suc}
use Prim.Native.Char.{code}
use Prim.Native.String.{String}
use mathlib.Core.Path.{◌≡◌, refl}
use mathlib.Core.Bool.{true, false}
use mathlib.Core.Option.{Option, none, some}
use mathlib.Core.List.{List, [], ◌∷◌, ◌++◌}
use native.Mathlib.Omega.{arith}
use lib_sp.Base.Tests.{◌==◌, if◌then◌else◌}
use lib_sp.Base.Lists.{All, replicate}

-- The bytes of an ASCII text.
abbrev pub codes : String → List ℕ
codes String.[] = []
codes (String.◌∷◌ c s) = code c ∷ codes s

-- What follows the last `sep` of `s`, and `whole` if there is none.
unfoldable pub after_last : ℕ → List ℕ → List ℕ → List ℕ
after_last sep whole [] = whole
after_last sep whole (c ∷ s) = after_last sep (if c == sep then s else whole) s

abbrev pub Lacks : ℕ → List ℕ → Type 0
Lacks sep = All (λ c. (c == sep) ≡ false)

pub after_last-Lacks : (sep : ℕ) (whole s : List ℕ) → Lacks sep s → after_last sep whole s ≡ whole
unfolding after_last
after_last-Lacks sep whole [] h = refl
after_last-Lacks sep whole (c ∷ s) h = ground (arith, after_last-Lacks sep whole s h.1)

-- Behind a prefix that ends with the separator.
pub after_last-append :
    (sep : ℕ) (whole p s : List ℕ) → Lacks sep s → after_last sep whole (p ++ sep ∷ s) ≡ s
unfolding after_last
after_last-append sep whole [] s h = ground (arith, after_last-Lacks sep s s h)
after_last-append sep whole (c ∷ p) s h =
    after_last-append sep (if c == sep then p ++ sep ∷ s else whole) p s h

-- The text of a `const char*` that points to an array: what stands before the first null character;
-- `none` where the array has none, and the text would go on past its end.
unfoldable pub c_string : List ℕ → Option (List ℕ)
c_string [] = none
c_string (c ∷ s) =
    let rest = c_string s in
    elim (c == 0) [ true ↦ some [] | false ↦ elim rest [ none ↦ none | some t ↦ some (c ∷ t) ] ]

pub c_string_whole : (d : List ℕ) (n : ℕ) → Lacks 0 d → c_string (d ++ replicate (suc n) 0) ≡ some d
unfolding c_string
c_string_whole [] n h = refl
c_string_whole (c ∷ d) n h = ground (arith, h.0, c_string_whole d n h.1)

pub c_string_endless : (d : List ℕ) → Lacks 0 d → c_string (d ++ []) ≡ none
unfolding c_string
c_string_endless [] h = refl
c_string_endless (c ∷ d) h = ground (arith, h.0, c_string_endless d h.1)
