-- ===== src/Linux/Stream/Receiving.antt =====
-- What a receiver gets of the bytes that arrive on the line.
use lib_sp.Base.{
  ℕ, zero, suc, ◌+◌, List, [], ◌∷◌, ◌++◌, ℤ, pos, negsuc, take, drop, map, ◌≡◌, refl, sym, ap, ◌∙◌,
  arith,
}
use lib_sp.Effect.{Ends, Ends-mono}
use lib_sp.Linux.Os.{Os, World, Event, event, call_read}
use lib_sp.Linux.Reader.{rounds, to_length}
use lib_sp.Linux.Reader.Delivery.{chunks, Delivers, rounds-Delivers}
use lib_sp.Linux.Stream.{consumed, text}

-- Each read gives the bytes of `line` that follow those read before.
abbrev pub Serial : Os → List ℕ → Type 0
Serial os line =
    (t : List Event) (fd : ℤ) (n : ℕ) (r : ℤ)
    → take (to_length r) (os.bytes (event (call_read fd n) r ∷ t))
      ≡ take (to_length r) (drop (consumed t) line)

-- The receiver has got the first bytes of `line`, as many as were read.
abbrev pub Received : List ℕ → World → Type 0
Received line w = text w.delivered ≡ take (consumed w.trace) line

take-plus : (a b : ℕ) (l : List ℕ) → take (a + b) l ≡ take a l ++ take b (drop a l)
take-plus zero b l = ap (λ n. take n l) (omega arith)
take-plus (suc a) b [] = none_left a b
  where
    nothing : (n : ℕ) → take {A = ℕ} n [] ≡ []
    nothing zero = refl
    nothing (suc n) = refl

    none_left : (a b : ℕ) → take (suc a + b) [] ≡ take {A = ℕ} b []
    none_left a b = nothing (suc a + b) ∙ sym (nothing b)
take-plus (suc a) b (x ∷ l) =
    let e : suc a + b ≡ suc (a + b) = omega arith in
    ap (λ n. take n (x ∷ l)) e ∙ ap (λ t. x ∷ t) (take-plus a b l)

module _ (os : Os) (line : List ℕ) (serial : Serial os line) (q : ℕ) where
  abbrev handed : List Event → List ℕ
  handed t = text (map (λ c. (q, c)) (chunks os t))

  handed-read :
      (t : List Event) (fd : ℤ) (n m : ℕ)
      → handed t ≡ take (consumed t) line
      → handed t ++ take m (os.bytes (event (call_read fd n) (pos m) ∷ t))
        ≡ take (consumed t + m) line
  handed-read t fd n m h = rw (h, serial t fd n (pos m)) (sym (take-plus (consumed t) m line))

  chunks-read :
      (t : List Event) (fd : ℤ) (n m : ℕ)
      → chunks os (event (call_read fd n) (pos (suc m)) ∷ t)
        ≡ take (suc m) (os.bytes (event (call_read fd n) (pos (suc m)) ∷ t)) ∷ chunks os t
  unfolding chunks
  chunks-read t fd n m = ground arith

  handed-consumed : (t : List Event) → handed t ≡ take (consumed t) line
  unfolding text chunks consumed
  handed-consumed [] = refl
  handed-consumed (event (call_read fd n) (pos zero) ∷ t) =
      handed-consumed t ∙ ap (λ m. take m line) (omega arith)
  handed-consumed (event (call_read fd n) (pos (suc m)) ∷ t) =
      ap (λ cs. text (map (λ c. (q, c)) cs)) (chunks-read t fd n m)
      ∙ handed-read t fd n (suc m) (handed-consumed t)
  handed-consumed (event (call_read fd n) (negsuc m) ∷ t) =
      handed-consumed t ∙ ap (λ m. take m line) (omega arith)
  handed-consumed (event c r ∷ t) = handed-consumed t

  Delivers-Received : (w : World) → Delivers os q w → Received line w
  Delivers-Received w d = ap text d.1 ∙ handed-consumed w.trace

  -- Where each read gives the bytes of the line that follow those read before: after any number of
  -- rounds, also where the last is blocked, the data handed to the receiver are together the first
  -- bytes of the line, as many as were read, with none lost, repeated or out of order.
  pub rounds-Received :
      (n : ℕ) (h : ℤ) (w : World)
      → Delivers os q w
      → Ends (λ _. Received line) (Received line) (rounds os n h w)
  rounds-Received n h w d =
      Ends-mono (rounds os n h w) (rounds-Delivers os q n h w d) (λ _ u e. Delivers-Received u e)
        (λ u e. Delivers-Received u e)
