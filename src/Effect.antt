-- ===== src/Effect.antt =====
-- The monad in which the methods of a port object run: state passing, where a call may also be
-- blocked in a mutex for ever; and the rules for the postconditions of its programs. `W` is the
-- state.
use lib_sp.Base.{◌≡◌, refl, Bool, true, false, if◌then◌else◌, List, [], ◌∷◌}

-- A method returns, or does not go on: it waits for ever for a mutex, what it does next has no
-- defined behaviour, or the program is terminated.
pub data Outcome (W A : Type 0) : Type 0 where
  returned : A → W → Outcome W A
  blocked : W → Outcome W A

abbrev pub M : Type 0 → Type 0 → Type 0
M W A = W → Outcome W A

abbrev pub pure : {W A : Type 0} → A → M W A
pure a w = returned a w

infixl 5 ◌>>=◌ ◌>>◌
abbrev pub ◌>>=◌ : {W A B : Type 0} → M W A → (A → M W B) → M W B
◌>>=◌ m f w = elim (m w) [ returned a w' ↦ f a w' | blocked w' ↦ blocked w' ]

abbrev pub ◌>>◌ : {W B : Type 0} → M W (Unit {0}) → M W B → M W B
m >> k = m >>= λ _. k

-- The postcondition `P` holds of the value and the state of a method that returns, and `Q` of the
-- state of one that is blocked.
abbrev pub Ends : {W A : Type 0} → (A → W → Type 0) → (W → Type 0) → Outcome W A → Type 0
Ends P Q (returned a w) = P a w
Ends P Q (blocked w) = Q w

-- The rule for a method that goes on with the value and the state of another.
pub Ends-bind :
    {W A B : Type 0} (P : A → W → Type 0) (R : B → W → Type 0) (Q : W → Type 0) (m : M W A)
    (f : A → M W B) (w : W)
    → Ends P Q (m w)
    → ((a : A) (w' : W) → P a w' → Ends R Q (f a w'))
    → Ends R Q ((m >>= f) w)
Ends-bind {W} {A} {B} P R Q m f w h k = go (m w) h
  where
    go :
        (o : Outcome W A)
        → Ends P Q o
        → Ends R Q (elim o [ returned a w' ↦ f a w' | blocked w' ↦ blocked w' ])
    go (returned a w') e = k a w' e
    go (blocked w') e = e

module _ {W A : Type 0} {P R : A → W → Type 0} {Q S : W → Type 0} where
  pub Ends-mono :
      (o : Outcome W A)
      → Ends P Q o
      → ((a : A) (w : W) → P a w → R a w)
      → ((w : W) → Q w → S w)
      → Ends R S o
  Ends-mono (returned a w) h f g = f a w h
  Ends-mono (blocked w) h f g = g w h

-- A weaker postcondition of a method that always returns.
pub Ends-weaken :
    {W A : Type 0} (P R : A → W → Type 0) (o : Outcome W A)
    → Ends P (λ _. ⊥) o
    → ((a : A) (w : W) → P a w → R a w)
    → Ends R (λ _. ⊥) o
Ends-weaken P R (returned a w) h f = f a w h
Ends-weaken P R (blocked w) h f = elim h [ ]

-- The rule for a test.
pub Ends-if :
    {W A : Type 0} (P : A → W → Type 0) (Q : W → Type 0) (b : Bool) (m k : M W A) (w : W)
    → (b ≡ true → Ends P Q (m w))
    → (b ≡ false → Ends P Q (k w))
    → Ends P Q ((if b then m else k) w)
Ends-if P Q true m k w f g = f refl
Ends-if P Q false m k w f g = g refl

-- Two postconditions at once.
pub Ends-and :
    {W A : Type 0} (P R : A → W → Type 0) (Q S : W → Type 0) (o : Outcome W A)
    → Ends P Q o
    → Ends R S o
    → Ends (λ a w. P a w × R a w) (λ w. Q w × S w) o
Ends-and P R Q S (returned a w) h k = (h, k)
Ends-and P R Q S (blocked w) h k = (h, k)

-- A history of calls, each performed after the other.
module _ {W Op : Type 0} (perform : Op → M W (Unit {0})) where
  unfoldable pub run_all : List Op → M W (Unit {0})
  run_all [] = pure tt
  run_all (o ∷ ops) = do perform o; run_all ops

  -- An invariant of every call is one of every history; `Q` holds where a call is blocked.
  pub run_all-keeps :
      (I Q : W → Type 0)
      → ((o : Op) (w : W) → I w → Ends (λ _. I) Q (perform o w))
      → (ops : List Op) (w : W) → I w
      → Ends (λ _. I) Q (run_all ops w)
  unfolding run_all
  run_all-keeps I Q keep [] w h = h
  run_all-keeps I Q keep (o ∷ ops) w h =
      Ends-bind (λ _. I) (λ _. I) Q (perform o) (λ _. run_all ops) w (keep o w h)
        (λ _ w' h'. run_all-keeps I Q keep ops w' h')
