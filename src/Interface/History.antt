-- ===== src/Interface/History.antt =====
-- Sessions of calls through the interface.
use lib_sp.Base.{List, [], ◌∷◌, ℤ, ◌≡◌, refl}
use lib_sp.Effect.{Ends, Ends-bind}
use lib_sp.Params.Props.{Platform}
use lib_sp.Interface.{SerialPort, Op, Session, ends, calls, call, play}
use lib_sp.Interface.Contract.{View, Permitted, Allowed, Refines}

-- The abstract port can answer the calls of the session as in the log, on the way from one state to
-- another.
abbrev pub Follows : Platform → Session → View → List (Op × ℤ) → View → Type 0
Follows os ends v log v' = (log ≡ []) × (v' ≡ v)
Follows os (calls o next) v log v' =
    (c : ℤ) × (rest : List (Op × ℤ)) × (u : View) × (log ≡ (o, c) ∷ rest)
    × Allowed os o v c u
    × Follows os (next c) u rest v'

-- Each call of the session is permitted after all codes that the calls before it may have returned.
abbrev pub Keeps : Platform → Session → View → Type 0
Keeps os ends v = Unit
Keeps os (calls o next) v =
    Permitted os o v × ((c : ℤ) (u : View) → Allowed os o v c u → Keeps os (next c) u)

module _ (os : Platform) (p : SerialPort) (r : Refines os p) where
  -- For an implementation that refines the abstract port: a session of permitted calls, each of
  -- which may depend on the codes before it, runs to its end, and its codes and the state at its end
  -- are ones that the abstract port allows.
  pub play-Follows :
      (s : Session) (v : View) (w : p.State)
      → Keeps os s v
      → r.Shows v w
      → Ends (λ log w'. (v' : View) × Follows os s v log v' × r.Shows v' w') (λ _. ⊥) (play p s w)
  unfolding play
  play-Follows ends v w k h = (v, (refl, refl), h)
  play-Follows (calls o next) v w k h =
      Ends-bind (λ c w'. (u : View) × Allowed os o v c u × r.Shows u w') _ (λ _. ⊥) (call p o) _ w
        (r.shows_call o v w k.0 h)
        (λ c w' a.
          Ends-bind (λ log w''. (v' : View) × Follows os (next c) a.0 log v' × r.Shows v' w'') _
            (λ _. ⊥) (play p (next c)) _ w' (play-Follows (next c) a.0 w' (k.1 c a.0 a.1) a.2)
            (λ log w'' f. (f.0, (c, log, a.0, refl, a.1, f.1), f.2)))
