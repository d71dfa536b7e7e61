-- ===== src/Linux/Reader/Rounds.antt =====
-- The rule for the rounds of the receiving loop.
use lib_sp.Base.{ℕ, zero, suc, Bool, true, false, ℤ}
use lib_sp.Effect.{pure, ◌>>=◌, Ends, Ends-bind}
use lib_sp.Linux.Os.{Os, World, M}
use lib_sp.Linux.Reader.{round, rounds}

module _ (os : Os) (I : ℤ → World → Type 0) (Q : World → Type 0) where
  -- What every round keeps, any number of rounds keep; `Q` holds where a round is blocked.
  pub rounds-keeps :
      ((has : ℤ) (w : World) → I has w → Ends I Q (round os has w))
      → (n : ℕ) (has : ℤ) (w : World) → I has w
      → Ends I Q (rounds os n has w)
  unfolding rounds
  rounds-keeps keep zero has w h = h
  rounds-keeps keep (suc n) has w h = go w.thread_recv_is_running (
      Ends-bind I I Q (round os has) (rounds os n) w (keep has w h)
        (λ has' w' h'. rounds-keeps keep n has' w' h'))
    where
      go :
          (b : Bool)
          → Ends I Q ((round os has >>= rounds os n) w)
          → Ends I Q (
              (elim b as (λ x. M ℤ) [
                | true ↦ (do has' ← round os has; rounds os n has')
                | false ↦ pure has
              ])
                w)
      go true k = k
      go false k = h
