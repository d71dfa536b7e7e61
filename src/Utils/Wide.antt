-- ===== src/Utils/Wide.antt =====
-- src/utils.cpp: the conversions between wide texts and texts in the code page of the system, by
-- `WideCharToMultiByte` and `MultiByteToWideChar` of Windows, which are a parameter.
pub mod RoundTrip
use lib_sp.Base.{
  ℕ, Option, none, some, List, [], ◌∷◌, ◌++◌, ℤ, minus, to_signed, leb, length, drop, replicate,
  if◌then◌else◌,
}
use lib_sp.Params.Props.{Platform, os_is_win, os_is_linux}

-- The two functions, with the text, the number of its characters (-1 for a text that ends with a
-- null character) and the size of the buffer; the result and what is stored at the start of the
-- buffer.
pub record CodePage : Type 0 where
  pub wide_to_multi : List ℕ → ℤ → ℕ → ℕ × List ℕ
  pub multi_to_wide : List ℕ → ℤ → ℕ → ℕ × List ℕ

-- `s` at the start of the array `dst`; `none` where it does not fit.
abbrev pub store : List ℕ → List ℕ → Option (List ℕ)
store s dst = if leb (length s) (length dst) then some (s ++ drop (length s) dst) else none

module _ (cp : CodePage) where
  -- The two conversions after the test for an empty text: the first call asks for the size of the
  -- second's buffer. The count is converted to `int`.
  abbrev pub convert : (List ℕ → ℤ → ℕ → ℕ × List ℕ) → List ℕ → Option (List ℕ)
  convert call s =
      let size = (call s (to_signed 32 (length s)) 0).0 in
      store (call s (to_signed 32 (length s)) size).1 (replicate size 0)

  -- `wstr2str`; `none` where a call stores more than it said.
  unfoldable pub wstr2str : Platform → List ℕ → Option (List ℕ)
  wstr2str os [] = some []
  wstr2str os_is_win (c ∷ wstr) = convert cp.wide_to_multi (c ∷ wstr)
  wstr2str os_is_linux (c ∷ wstr) = some []

  unfoldable pub str2wstr : Platform → List ℕ → Option (List ℕ)
  str2wstr os [] = some []
  str2wstr os_is_win (c ∷ str) = convert cp.multi_to_wide (c ∷ str)
  str2wstr os_is_linux (c ∷ str) = some []

  -- `tchar2char` of `get_cwd`: the second call is told that the buffer has the size that the first
  -- has asked for. `none` where it writes past the end of the array.
  unfoldable pub tchar2char : List ℕ → List ℕ → Option (List ℕ)
  tchar2char ptchar_arr pchar_arr =
      let length_needed = (cp.wide_to_multi ptchar_arr (minus 1) 0).0 in
      store (cp.wide_to_multi ptchar_arr (minus 1) length_needed).1 pchar_arr
