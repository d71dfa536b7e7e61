-- ===== src/Utils/Directory.antt =====
-- src/utils.cpp: `helper::get_cwd`. What `GetModuleFileName` stores is an argument.
use mathlib.Core.Option
use lib_sp.Base.{
  Bool-cases, inl, inr, ◌≤◌, ℕ, suc, ◌<◌, ◌-◌, Bool, true, false, Option, none, some, List, [], ◌∷◌,
  ◌++◌, ℤ, pos, minus, eq_ℤ, ◌==◌, take, length, replicate, ltb, c_string, c_string_whole, ◌≡◌,
  refl, ap, ◌∙◌, Lacks, arith, if◌then◌else◌,
}
use lib_sp.Params.Props.{Platform, os_is_win, os_is_linux}
use lib_sp.Utils.Wide.{CodePage, tchar2char}
use lib_sp.Utils.Wide.RoundTrip.{Terminated, tchar2char_fits, tchar2char_overflow}

abbrev arr_size_256 : ℕ
arr_size_256 = 256

-- `std::string::find_last_of` of one character; `none` is `npos`.
unfoldable pub find_last_of : ℕ → List ℕ → Option ℕ
find_last_of c [] = none
find_last_of c (x ∷ s) = elim (find_last_of c s) [
  | some i ↦ some (suc i)
  | none ↦ (if x == c then some 0 else none)
]

-- The conversion of the position to `int`, for a buffer of 256 characters.
abbrev pub to_position : Option ℕ → ℤ
to_position none = minus 1
to_position (some i) = pos i

-- `substr(0, n)`, where `n` is not past the end.
abbrev pub substr : List ℕ → ℤ → List ℕ
substr s (pos n) = take n s
substr s _ = s

-- What `get_cwd` does with the path of the program.
unfoldable pub directory : List ℕ → List ℕ
directory path =
    let last_pos = to_position (find_last_of b'\\' path) in
    if eq_ℤ (minus 1) last_pos then path else substr path last_pos

-- What it does with the array `path`.
abbrev directory_of : Option (List ℕ) → Option (List ℕ)
directory_of none = none
directory_of (some path) = Option.map directory (c_string path)

-- `get_cwd`, where `GetModuleFileName` has stored `tpath` in the array, of wide characters with
-- UNICODE; `none` where it writes or reads past the end of an array.
unfoldable pub get_cwd : Platform → Bool → CodePage → List ℕ → Option (List ℕ)
get_cwd os_is_win true cp tpath = directory_of (tchar2char cp tpath (replicate arr_size_256 0))
get_cwd os_is_win false cp path = directory_of (some path)
get_cwd os_is_linux unicode cp path = some []

find_last_of-Lacks : (c : ℕ) (s : List ℕ) → Lacks c s → find_last_of c s ≡ none
unfolding find_last_of
find_last_of-Lacks c [] h = refl
find_last_of-Lacks c (x ∷ s) h = rw (find_last_of-Lacks c s h.1, h.0) refl

find_last_of-append :
    (c : ℕ) (d s : List ℕ) → Lacks c s → find_last_of c (d ++ c ∷ s) ≡ some (length d)
unfolding find_last_of
find_last_of-append c [] s h = ground (arith, find_last_of-Lacks c s h)
find_last_of-append c (x ∷ d) s h = rw (find_last_of-append c d s h) refl

take-append : (d s : List ℕ) → take (length d) (d ++ s) ≡ d
take-append [] s = refl
take-append (x ∷ d) s = ap (λ t. x ∷ t) (take-append d s)

-- The directory of a file is what stands before the last backslash of its path, which may hold
-- further ones, and a path without a backslash is left as it is.
directory_lem :
    (d s : List ℕ) → Lacks b'\\' s → (directory (d ++ b'\\' ∷ s) ≡ d) × (directory s ≡ s)
unfolding directory
directory_lem d s h = (
  rw (find_last_of-append b'\\' d s h) (take-append d (b'\\' ∷ s)),
  rw (find_last_of-Lacks b'\\' s h) refl,
)

module _ (cp : CodePage) (encode : List ℕ → List ℕ) (h : Terminated cp.wide_to_multi encode) where
  get_cwd-fits :
      (s rest : List ℕ)
      → Lacks 0 s
      → length (encode s) < 256
      → get_cwd os_is_win true cp (s ++ 0 ∷ rest) ≡ some (directory (encode s))
  unfolding get_cwd
  get_cwd-fits s rest k small =
      let e : 256 - length (encode s) ≡ suc (255 - length (encode s)) = omega (arith, small) in
      let ends =
        ap (λ n. c_string (encode s ++ replicate n 0)) e
        ∙ c_string_whole (encode s) (255 - length (encode s)) (h.no_null s k) in
      ap directory_of (tchar2char_fits cp encode h s rest 256 k small)
      ∙ ap (Option.map directory) ends

  get_cwd-overflows :
      (s rest : List ℕ)
      → Lacks 0 s
      → 256 ≤ length (encode s)
      → get_cwd os_is_win true cp (s ++ 0 ∷ rest) ≡ none
  unfolding get_cwd
  get_cwd-overflows s rest k large =
      ap directory_of (tchar2char_overflow cp encode h s rest 256 k large)

-- On Windows, with UNICODE and where Windows converts as it documents: `get_cwd` gives what stands
-- before the last backslash of the path's code, which may hold further ones, if that code is
-- shorter than 256 bytes, and writes past the end of its buffer if it is not.
pub get_cwd_lem :
    (cp : CodePage) (encode : List ℕ → List ℕ)
    → Terminated cp.wide_to_multi encode
    → (path rest d file : List ℕ) → Lacks 0 path
    → encode path ≡ d ++ b'\\' ∷ file
    → Lacks b'\\' file
    → get_cwd os_is_win true cp (path ++ 0 ∷ rest)
      ≡ (if ltb (length (encode path)) 256 then some d else none)
get_cwd_lem cp encode h path rest d file k e last =
    elim (Bool-cases (ltb (length (encode path)) 256)) [
      | inl small ↦ rw small (
          get_cwd-fits cp encode h path rest k (ground (arith, small))
          ∙ ap some (ap directory e ∙ (directory_lem d file last).0))
      | inr large ↦ rw large (get_cwd-overflows cp encode h path rest k (ground (arith, large)))
    ]
