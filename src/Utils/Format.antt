-- ===== src/Utils/Format.antt =====
-- include/utils.h: `helper::str_format`, with the part of `snprintf` that the program uses, and
-- `get_version` of both ports with the numbers of include/config.h.
pub mod Laws
use lib_sp.Base.{
  ℕ, zero, suc, ◌+◌, ◌-◌, ◌/◌, ◌%◌, Bool, true, false, ◌&&◌, List, [], ◌∷◌, ◌++◌, ltb, ◌==◌, take,
  length, codes,
}

-- The decimal digits of a number; one unit of fuel is used for each digit.
unfoldable pub digits : ℕ → ℕ → List ℕ
digits zero n = []
digits (suc fuel) n =
    let front = digits fuel (n / 10) in
    elim (ltb n 10) [ true ↦ (b'0' + n) ∷ [] | false ↦ front ++ (b'0' + n % 10) ∷ [] ]

abbrev pub print : ℕ → List ℕ
print n = digits (suc n) n

-- The text of `snprintf` for a format with `%d` and numbers that are not negative. A directive
-- without an argument has no defined behaviour, and ends the text here.
unfoldable pub format_text : List ℕ → List ℕ → List ℕ
format_text [] args = []
format_text (c ∷ []) args = c ∷ []
format_text (c ∷ d ∷ f) args = elim (c == b'%' && d == b'd') [
  | true ↦ elim args [ [] ↦ [] | a ∷ rest ↦ print a ++ format_text f rest ]
  | false ↦ c ∷ format_text (d ∷ f) args
]

-- What `snprintf` leaves in a buffer of `size` characters, where `size` is not 0.
abbrev pub written : ℕ → List ℕ → List ℕ
written size text = take (size - 1) text ++ 0 ∷ []

-- The first call of `snprintf` counts, the second writes; `new (std::nothrow)` may fail.
unfoldable pub str_format : Bool → List ℕ → List ℕ → List ℕ
unfolding format_text
str_format has_memory format args =
    let size_buf = length (format_text format args) + 1 in
    elim has_memory [
      | false ↦ []
      | true ↦ take (size_buf - 1) (written size_buf (format_text format args))
    ]

abbrev pub version_format : List ℕ
version_format = codes "%d.%d.%d.%d"

-- version_1 to version_4
abbrev pub version : List ℕ
version = 1 ∷ 0 ∷ 3 ∷ 23092020 ∷ []

unfoldable pub get_version : Bool → List ℕ
unfolding str_format
get_version has_memory = str_format has_memory version_format version
