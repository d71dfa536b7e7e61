-- ===== src/Example/Receiving.antt =====
-- example/shared/main.cc: `on_recv_data`, with the buffer that src/serial_port_linux_base.cpp hands
-- to it.
use lib_sp.Base.{
  ℕ, suc, ◌-◌, ◌<◌, ◌≤◌, Option, none, some, List, [], ◌∷◌, ◌++◌, replicate, length, Lacks,
  c_string, c_string_whole, c_string_endless, ◌≡◌, ap, ◌∙◌, ◌↔◌, arith,
}
use lib_sp.Linux.State.{len_buf_1024}

-- The array after `read` has stored `d` at its start; the rest is null.
abbrev pub buf_read : List ℕ → List ℕ
buf_read d = d ++ replicate (len_buf_1024 - length d) 0

-- The length and the text that are printed, or `none` where the text has no defined end.
unfoldable pub on_recv_data : List ℕ → ℕ → Option (ℕ × List ℕ)
unfolding c_string
on_recv_data precv_data len_recv_data = elim (c_string precv_data) [
  | none ↦ none
  | some text ↦ some (len_recv_data, text)
]

c_string-Lacks : (s t : List ℕ) → c_string s ≡ some t → Lacks 0 t
unfolding c_string
c_string-Lacks [] t h = cc
c_string-Lacks (c ∷ s) [] h = tt
c_string-Lacks (c ∷ s) (x ∷ t) h = (ground (arith, h), c_string-Lacks s t (ground (arith, h)))

shows_text : (s t : List ℕ) (n : ℕ) → on_recv_data s n ≡ some (n, t) → c_string s ≡ some t
unfolding on_recv_data
shows_text s t n h = ground (arith, h)

text_shown : (s t : List ℕ) (n : ℕ) → c_string s ≡ some t → on_recv_data s n ≡ some (n, t)
unfolding on_recv_data
text_shown s t n h = ground (arith, h)

buf_read_full : (d : List ℕ) → 1024 ≤ length d → buf_read d ≡ d ++ []
buf_read_full d h =
    let e : len_buf_1024 - length d ≡ 0 = omega (arith, h) in ap (λ n. d ++ replicate n 0) e

buf_read_ends :
    (d : List ℕ) → length d < 1024 → buf_read d ≡ d ++ replicate (suc (1023 - length d)) 0
buf_read_ends d h =
    let e : len_buf_1024 - length d ≡ suc (1023 - length d) = omega (arith, h) in
    ap (λ n. d ++ replicate n 0) e

endless : (d : List ℕ) → Lacks 0 d → 1024 ≤ length d → c_string (buf_read d) ≡ none
endless d h l = ap c_string (buf_read_full d l) ∙ c_string_endless d h

has_room : (d : List ℕ) → c_string (buf_read d) ≡ some d → length d < 1024
has_room d e =
    let not_full : ¬ (1024 ≤ length d) =
      λ l. let n = endless d (c_string-Lacks (buf_read d) d e) l in ground (arith, e, n) in
    omega (arith, not_full)

-- The example shows the data that a read has stored, whole and no more, exactly if they hold no
-- null character and leave room for one in the buffer.
pub on_recv_data_iff :
    (d : List ℕ)
    → (on_recv_data (buf_read d) (length d) ≡ some (length d, d)) ↔ (Lacks 0 d × (length d < 1024))
on_recv_data_iff d = (
  (λ h.
      let text = shows_text (buf_read d) d (length d) h in
      (c_string-Lacks (buf_read d) d text, has_room d text)),
  (λ h.
      text_shown (buf_read d) d (length d)
        (ap c_string (buf_read_ends d h.1) ∙ c_string_whole d (1023 - length d) h.0)),
)

-- Data that fill the buffer and hold no null character are shown without a defined end.
on_recv_data_endless :
    (d : List ℕ) → Lacks 0 d → length d ≡ 1024 → on_recv_data (buf_read d) (length d) ≡ none
unfolding on_recv_data
on_recv_data_endless d h l = ground (arith, endless d h (omega (arith, l)))
