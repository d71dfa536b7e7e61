-- ===== src/Tests/Paths.antt =====
-- Texts in a code page, and the path of a program.
use lib_sp.Base.{
  ℕ, ltb, leb, true, some, none, List, [], ◌∷◌, ◌++◌, ℤ, pos, negsuc, minus, length, length-append,
  zero, suc, Option, take, replicate, codes, c_string, Lacks, ◌≡◌, refl, ap, ◌∙◌, arith,
  if◌then◌else◌,
}
use lib_sp.Params.Props.{os_is_win}
use lib_sp.Utils.Wide.{CodePage, wstr2str, str2wstr, tchar2char}
use lib_sp.Utils.Wide.RoundTrip.{Converts, Terminated, str2wstr-wstr2str}
use lib_sp.Utils.Directory.{get_cwd, find_last_of, directory, get_cwd_lem}

-- A character above 127 takes two bytes.
abbrev twice : List ℕ → List ℕ
twice [] = []
twice (c ∷ s) = if ltb c 128 then c ∷ twice s else 129 ∷ c ∷ twice s

abbrev once : List ℕ → List ℕ
once [] = []
once (c ∷ []) = c ∷ []
once (c ∷ x ∷ s) = if ltb c 128 then c ∷ once (x ∷ s) else x ∷ once s

abbrev with_end : (List ℕ → List ℕ) → Option (List ℕ) → List ℕ
with_end code none = []
with_end code (some t) = code t ++ 0 ∷ []

-- A conversion function that counts or stores the code of a text.
abbrev coded : (List ℕ → List ℕ) → List ℕ → ℤ → List ℕ
coded code s (pos n) = code (take n s)
coded code s (negsuc n) = with_end code (c_string s)

abbrev up_to : ℕ → List ℕ → List ℕ
up_to size t = if leb (length t) size then t else []

abbrev call : (List ℕ → List ℕ) → List ℕ → ℤ → ℕ → ℕ × List ℕ
call code s n size = (length (coded code s n), up_to size (coded code s n))

abbrev double_byte : CodePage
double_byte = record { wide_to_multi = call twice; multi_to_wide = call once }

take_all : (s : List ℕ) → take (length s) s ≡ s
take_all [] = refl
take_all (c ∷ s) = ap (λ t. c ∷ t) (take_all s)

c_string-append : (s rest : List ℕ) → Lacks 0 s → c_string (s ++ 0 ∷ rest) ≡ some s
unfolding c_string
c_string-append [] rest h = refl
c_string-append (c ∷ s) rest h = ground (arith, h.0, c_string-append s rest h.1)

given : (t : List ℕ) (size : ℕ) → length t ≡ size → up_to size t ≡ t
given t size h = ground (arith, h)

with_null : (t : List ℕ) → length (t ++ 0 ∷ []) ≡ suc (length t)
with_null t = omega (arith, length-append t (0 ∷ []))

call-Converts : (code : List ℕ → List ℕ) → code [] ≡ [] → Converts (call code) code
call-Converts code e = record {
  asked = λ s. rw (take_all s) refl;
  stored = λ s. rw (take_all s) (given (code s) (length (code s)) refl);
  empty = e;
}

twice-Lacks : (s : List ℕ) → Lacks 0 s → Lacks 0 (twice s)
twice-Lacks [] h = tt
twice-Lacks (c ∷ s) h = ground (arith, h.0, twice-Lacks s h.1)

ends : (s rest : List ℕ) → Lacks 0 s → coded twice (s ++ 0 ∷ rest) (minus 1) ≡ twice s ++ 0 ∷ []
ends s rest h = ap (with_end twice) (c_string-append s rest h)

double_byte-Terminated : Terminated double_byte.wide_to_multi twice
double_byte-Terminated = record {
  asked = λ s rest h. ap length (ends s rest h) ∙ with_null (twice s);
  stored = λ s rest h.
      ap (up_to (suc (length (twice s)))) (ends s rest h)
      ∙ given (twice s ++ 0 ∷ []) _ (with_null (twice s));
  no_null = twice-Lacks;
}

program_dir :
    get_cwd os_is_win true double_byte (codes "C:\\a\\b.exe" ++ 0 ∷ []) ≡ some (codes "C:\\a")
unfolding get_cwd find_last_of directory tchar2char c_string
program_dir = refl

abbrev long_path : List ℕ
long_path = replicate 127 200 ++ b'\\' ∷ b'a' ∷ []

no_null : (n : ℕ) (s : List ℕ) → Lacks 0 s → Lacks 0 (replicate n 200 ++ s)
no_null zero s h = h
no_null (suc n) s h = (refl, no_null n s h)

-- 129 characters of which 127 take two bytes do not fit.
get_cwd_lem_example : get_cwd os_is_win true double_byte (long_path ++ 0 ∷ []) ≡ none
get_cwd_lem_example =
    get_cwd_lem double_byte twice double_byte-Terminated long_path [] (twice (replicate 127 200))
      (b'a' ∷ []) (no_null 127 (b'\\' ∷ b'a' ∷ []) (refl, (refl, tt))) refl (refl, tt)

-- A text there and back.
there : wstr2str double_byte os_is_win (200 ∷ 65 ∷ []) ≡ some (129 ∷ 200 ∷ 65 ∷ [])
unfolding wstr2str
there = refl

back :
    (t : List ℕ) × (wstr2str double_byte os_is_win (200 ∷ 65 ∷ []) ≡ some t)
    × (str2wstr double_byte os_is_win t ≡ some (200 ∷ 65 ∷ []))
back =
    str2wstr-wstr2str double_byte twice once (call-Converts twice refl) (call-Converts once refl)
      (200 ∷ 65 ∷ []) (omega arith) (omega arith) refl
