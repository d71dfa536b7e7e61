-- ===== src/Base/Steps.antt =====
-- What comes true whatever steps are taken.
use Prim.Native.Nat.{ℕ, zero, suc, ◌≤◌, ◌<◌}
use mathlib.Core.Logic.{◌⊎◌, inl, inr}
use native.Mathlib.Omega.{arith}

-- Whatever steps are taken, `P` comes true: it holds, or there is a step and `P` comes true after
-- each step.
pub data Inevitable {S : Type 0} (R : S → S → Type 0) (P : S → Type 0) : S → Type 0 where
  now : {s : S} → P s → Inevitable R P s
  later : {s : S} (u : S) → R s u → ((v : S) → R s v → Inevitable R P v) → Inevitable R P s

module _ {S : Type 0} (R : S → S → Type 0) (P W : S → Type 0) (rank : S → ℕ) where
  -- Where a step can be taken as long as `W` holds, and each step brings `P` about or keeps `W`
  -- and makes the rank less.
  pub ranked-Inevitable :
      ((s : S) → W s → (u : S) × R s u)
      → ((s u : S) → R s u → W s → P u ⊎ (W u × (rank u < rank s)))
      → (n : ℕ) (s : S) → rank s ≤ n
      → W s
      → Inevitable R P s
  ranked-Inevitable enabled steps zero s h w =
      later (enabled s w).0 (enabled s w).1
        λ v st. elim (steps s v st w) [ inl done ↦ now done | inr (_, less) ↦ absurd (omega arith) ]
  ranked-Inevitable enabled steps (suc n) s h w = later (enabled s w).0 (enabled s w).1 λ v st.
      elim (steps s v st w) [
        | inl done ↦ now done
        | inr (k, less) ↦ ranked-Inevitable enabled steps n v (omega arith) k
      ]
