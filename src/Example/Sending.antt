-- ===== src/Example/Sending.antt =====
-- What the sending loop of `main` prints, on any port.
use lib_sp.Base.{
  Bool-cases, ℕ, zero, suc, ◌≤◌, some, List, ◌∷◌, ◌++◌, replicate, pos, eq_ℤ, ◌≡◌, refl, ap, ◌∙◌,
  ◌⊎◌, inl, inr, length, arith, subst,
}
use lib_sp.Effect.{Ends, Ends-bind, Ends-mono}
use lib_sp.Interface.{SerialPort}
use lib_sp.Example.Printing.{through-printed}
use lib_sp.Example.{
  Client, Message, print_message, send, send_loop, send_done, send_failed, str_data, not_created,
}

-- The loop reported `k` successes, and then it was at its end or reported one failure.
abbrev pub Reported : ℕ → List Message → List Message → Type 0
Reported n before after =
    (k : ℕ) × (((k ≡ n) × (after ≡ replicate k send_done ++ before))
      ⊎ ((suc k ≤ n) × (after ≡ send_failed ∷ (replicate k send_done ++ before))))

replicate-cons :
    (k : ℕ) (ms : List Message)
    → replicate k send_done ++ (send_done ∷ ms) ≡ send_done ∷ (replicate k send_done ++ ms)
replicate-cons zero ms = refl
replicate-cons (suc k) ms = ap (λ t. send_done ∷ t) (replicate-cons k ms)

Reported-suc :
    (n : ℕ) (before after : List Message)
    → Reported n (send_done ∷ before) after
    → Reported (suc n) before after
Reported-suc n before after (k, inl (e, q)) =
    (suc k, inl (omega (arith, e), q ∙ replicate-cons k before))
Reported-suc n before after (k, inr (e, q)) =
    (suc k, inr (omega (arith, e), q ∙ ap (λ t. send_failed ∷ t) (replicate-cons k before)))

module _ (p : SerialPort) where
  -- The loop sends at most `n` times and stops at the first code 0: it has printed one success for
  -- each other code, and one failure last if it stopped before its end.
  send_loop-Reported :
      (n : ℕ) (c : Client p)
      → Ends (λ _ d. Reported n c.printed d.printed) (λ _. Unit {0}) (send_loop p n c)
  unfolding send_loop print_message
  send_loop-Reported zero c = (0, inl (refl, refl))
  send_loop-Reported (suc n) c =
      Ends-bind (λ _ d. d.printed ≡ c.printed) (λ _ d. Reported (suc n) c.printed d.printed)
        (λ _. Unit) (send p str_data (length str_data)) _ c
        (through-printed p not_created (p.send (some str_data) (length str_data)) c)
        (λ b d q. elim (Bool-cases (eq_ℤ (pos 0) b)) [
          | inl e ↦ rw e (0, inr (omega arith, ap (λ t. send_failed ∷ t) q))
          | inr e ↦ rw e (
              Ends-mono {P = λ _ x. Reported n (send_done ∷ d.printed) x.printed}
                {R = λ _ x. Reported (suc n) c.printed x.printed} {Q = λ _. Unit} {S = λ _. Unit}
                (send_loop p n (record d { printed = send_done ∷ d.printed }))
                (send_loop-Reported n (record d { printed = send_done ∷ d.printed }))
                (λ _ x rep.
                  Reported-suc n c.printed x.printed
                    (subst (λ t. Reported n (send_done ∷ t) x.printed) q rep))
                (λ _ u. u))
        ])
