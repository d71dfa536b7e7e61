-- ===== src/Utils/Wide/RoundTrip.antt =====
-- What the conversions give where Windows does as it documents.
use mathlib.Core.List.{append-nil, append_assoc}
use lib_sp.Base.{
  ℕ, suc, ◌-◌, ◌<◌, ◌≤◌, ◌^◌, ◌++◌, ◌∷◌, [], none, some, List, ℤ, pos, minus, length, length-append,
  length-replicate, drop-replicate, replicate, to_signed, Lacks, ◌≡◌, refl, sym, ap, ◌∙◌, arith,
}
use lib_sp.Params.Props.{os_is_win}
use lib_sp.Utils.Wide.{CodePage, store, convert, wstr2str, str2wstr, tchar2char}

-- A conversion function that turns each text into its code: the result is the number of its
-- characters, also where the size of the buffer is 0, and a buffer of that size gets the code.
pub record Converts (call : List ℕ → ℤ → ℕ → ℕ × List ℕ) (code : List ℕ → List ℕ) : Type 0 where
  pub asked : (s : List ℕ) → (call s (pos (length s)) 0).0 ≡ length (code s)
  pub stored : (s : List ℕ) → (call s (pos (length s)) (length (code s))).1 ≡ code s
  pub empty : code [] ≡ []

-- The same for a text that ends with a null character, with which its code ends, too.
pub record Terminated (call : List ℕ → ℤ → ℕ → ℕ × List ℕ) (code : List ℕ → List ℕ) : Type 0 where
  pub asked :
      (s rest : List ℕ) → Lacks 0 s → (call (s ++ 0 ∷ rest) (minus 1) 0).0 ≡ suc (length (code s))
  pub stored :
      (s rest : List ℕ)
      → Lacks 0 s
      → (call (s ++ 0 ∷ rest) (minus 1) (suc (length (code s)))).1 ≡ code s ++ 0 ∷ []
  pub no_null : (s : List ℕ) → Lacks 0 s → Lacks 0 (code s)

int_length : (n : ℕ) → n < 2 ^ 31 → to_signed 32 n ≡ pos n
int_length n h = ground arith

store_fits :
    (s : List ℕ) (n : ℕ)
    → length s ≤ n
    → store s (replicate n 0) ≡ some (s ++ replicate (n - length s) 0)
store_fits s n h =
    ground (arith, length-replicate {A = ℕ} n 0, drop-replicate {A = ℕ} (length s) n 0)

store_overflow : (s : List ℕ) (n : ℕ) → n < length s → store s (replicate n 0) ≡ none
store_overflow s n h = ground (arith, length-replicate {A = ℕ} n 0)

store_whole : (s : List ℕ) → store s (replicate (length s) 0) ≡ some s
store_whole s =
    let none_left : length s - length s ≡ 0 = omega arith in
    store_fits s (length s) (omega arith)
    ∙ ap some (ap (λ n. s ++ replicate n 0) none_left ∙ append-nil s)

convert-code :
    (cp : CodePage) (call : List ℕ → ℤ → ℕ → ℕ × List ℕ) (code : List ℕ → List ℕ)
    → Converts call code
    → (s : List ℕ) → length s < 2 ^ 31
    → convert cp call s ≡ some (code s)
convert-code cp call code h s small =
    rw (int_length (length s) small, h.asked s, h.stored s) (store_whole (code s))

wstr2str-code :
    (cp : CodePage) (encode : List ℕ → List ℕ)
    → Converts cp.wide_to_multi encode
    → (s : List ℕ) → length s < 2 ^ 31
    → wstr2str cp os_is_win s ≡ some (encode s)
unfolding wstr2str
wstr2str-code cp encode h [] small = ap some (sym h.empty)
wstr2str-code cp encode h (c ∷ s) small = convert-code cp cp.wide_to_multi encode h (c ∷ s) small

str2wstr-code :
    (cp : CodePage) (decode : List ℕ → List ℕ)
    → Converts cp.multi_to_wide decode
    → (s : List ℕ) → length s < 2 ^ 31
    → str2wstr cp os_is_win s ≡ some (decode s)
unfolding str2wstr
str2wstr-code cp decode h [] small = ap some (sym h.empty)
str2wstr-code cp decode h (c ∷ s) small = convert-code cp cp.multi_to_wide decode h (c ∷ s) small

-- Where Windows converts as it documents, and a wide text has a code in the code page from which it
-- can be had back, `str2wstr` turns the result of `wstr2str` back into the text, whatever its
-- length in bytes is; both texts are shorter than the `int` that counts their characters allows.
pub str2wstr-wstr2str :
    (cp : CodePage) (encode decode : List ℕ → List ℕ)
    → Converts cp.wide_to_multi encode
    → Converts cp.multi_to_wide decode
    → (s : List ℕ) → length s < 2 ^ 31
    → length (encode s) < 2 ^ 31
    → decode (encode s) ≡ s
    → (t : List ℕ) × (wstr2str cp os_is_win s ≡ some t) × (str2wstr cp os_is_win t ≡ some s)
str2wstr-wstr2str cp encode decode e d s small fits inverse = (
  encode s,
  wstr2str-code cp encode e s small,
  str2wstr-code cp decode d (encode s) fits ∙ ap some inverse,
)

-- The null character of a text that fits counts to the nulls behind it.
null_moves :
    (s : List ℕ) (n : ℕ)
    → length s < n
    → (s ++ 0 ∷ []) ++ replicate (n - length (s ++ 0 ∷ [])) 0 ≡ s ++ replicate (n - length s) 0
null_moves s n h =
    let e : suc (n - length (s ++ 0 ∷ [])) ≡ n - length s =
      omega (arith, length-append s (0 ∷ []), h) in
    append_assoc s (0 ∷ []) (replicate (n - length (s ++ 0 ∷ [])) 0)
    ∙ ap (λ k. s ++ replicate k 0) e

module _ (cp : CodePage) (encode : List ℕ → List ℕ) (h : Terminated cp.wide_to_multi encode) where
  tchar2char-store :
      (s rest dst : List ℕ)
      → Lacks 0 s
      → tchar2char cp (s ++ 0 ∷ rest) dst ≡ store (encode s ++ 0 ∷ []) dst
  unfolding tchar2char
  tchar2char-store s rest dst k = rw (h.asked s rest k, h.stored s rest k) refl

  pub tchar2char_fits :
      (s rest : List ℕ) (n : ℕ)
      → Lacks 0 s
      → length (encode s) < n
      → tchar2char cp (s ++ 0 ∷ rest) (replicate n 0)
        ≡ some (encode s ++ replicate (n - length (encode s)) 0)
  tchar2char_fits s rest n k small =
      tchar2char-store s rest (replicate n 0) k
      ∙ store_fits (encode s ++ 0 ∷ []) n (omega (arith, length-append (encode s) (0 ∷ []), small))
      ∙ ap some (null_moves (encode s) n small)

  pub tchar2char_overflow :
      (s rest : List ℕ) (n : ℕ)
      → Lacks 0 s
      → n ≤ length (encode s)
      → tchar2char cp (s ++ 0 ∷ rest) (replicate n 0) ≡ none
  tchar2char_overflow s rest n k large =
      tchar2char-store s rest (replicate n 0) k
      ∙ store_overflow (encode s ++ 0 ∷ []) n
          (omega (arith, length-append (encode s) (0 ∷ []), large))
