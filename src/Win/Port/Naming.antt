-- ===== src/Win/Port/Naming.antt =====
-- What repeated calls of `open` do to the name of the port on Windows.
use lib_sp.Base.{ℕ, zero, suc, List, [], ◌∷◌, ◌++◌, All, ◌≡◌, ap, ◌∙◌, true}
use lib_sp.Effect.{Ends, Ends-bind, run_all}
use lib_sp.Params.Props.{SpProp}
use lib_sp.Win.Os.{Os, World}
use lib_sp.Win.Port.{close_port, set_read_notify}
use lib_sp.Win.Port.Open.{open_port, name_prefix}
use lib_sp.Win.Port.History.{
  Op, op_init, op_open, op_close, op_set_read_notify, op_send, perform, run,
}
use lib_sp.Win.Port.Closing.{Free, Same-refl, Shut, close_port-Shut}
use lib_sp.Win.Port.Opening.{Answered, open_port-Answered}

-- `n` prefixes before the name.
abbrev prefixed : ℕ → List ℕ → List ℕ
prefixed zero name = name
prefixed (suc n) name = name_prefix ++ prefixed n name

-- The calls that neither set the properties nor send.
abbrev Plain : Op → Type 0
Plain (op_init spp r) = ⊥
Plain op_open = Unit
Plain op_close = Unit
Plain (op_set_read_notify n) = Unit
Plain (op_send d n) = ⊥

-- `n` and the number of calls of `open`.
abbrev opens : ℕ → List Op → ℕ
opens n [] = n
opens n (op_open ∷ ops) = opens (suc n) ops
opens n (o ∷ ops) = opens n ops

-- The properties that were set, with `n` prefixes before the name.
abbrev Named : SpProp → ℕ → World → Type 0
Named spp n w = Free w × (w.is_init ≡ true) × (w.spp ≡ record spp { name = prefixed n spp.name })

module _ (os : Os) where
  open-Named :
      (spp : SpProp) (n : ℕ) (w : World)
      → Named spp n w
      → Ends (λ _. Named spp (suc n)) (λ _. ⊥) (perform os op_open w)
  unfolding perform
  open-Named spp n w h =
      Ends-bind (Answered os w) (λ _. Named spp (suc n)) (λ _. ⊥) (open_port os) _ w
        (open_port-Answered os w h.0 h.1)
        (λ _ u a. (
          a.2,
          a.3.is_init ∙ h.1,
          a.3.spp
              ∙ ap {A = SpProp} {B = SpProp} (λ p. record p { name = name_prefix ++ p.name }) h.2,
        ))

  close-Named :
      (spp : SpProp) (n : ℕ) (w : World)
      → Named spp n w
      → Ends (λ _. Named spp n) (λ _. ⊥) (perform os op_close w)
  unfolding perform
  close-Named spp n w h =
      Ends-bind (Shut w) (λ _. Named spp n) (λ _. ⊥) (close_port os) _ w
        (close_port-Shut os w w h.0 (Same-refl w))
        (λ _ u s. (s.0, s.1.is_init ∙ h.1, s.1.spp ∙ h.2))

  notify-Named :
      (m : ℕ) (spp : SpProp) (n : ℕ) (w : World)
      → Named spp n w
      → Ends (λ _. Named spp n) (λ _. ⊥) (perform os (op_set_read_notify m) w)
  unfolding perform set_read_notify
  notify-Named m spp n w h = h

  -- `open` puts the prefix of a device before the stored name whenever it is called, also on a port
  -- that is open: after a history of calls of `open`, `close` and `set_read_notify`, none of which is
  -- blocked, the name has one prefix for each call of `open`.
  run-Named :
      (ops : List Op) (spp : SpProp) (n : ℕ) (w : World)
      → All Plain ops
      → Named spp n w
      → Ends (λ _. Named spp (opens n ops)) (λ _. ⊥) (run os ops w)
  unfolding run_all
  run-Named [] spp n w p h = h
  run-Named (op_open ∷ ops) spp n w p h =
      Ends-bind (λ _. Named spp (suc n)) (λ _. Named spp (opens (suc n) ops)) (λ _. ⊥)
        (perform os op_open) (λ _. run os ops) w (open-Named spp n w h)
        (λ _ u k. run-Named ops spp (suc n) u p.1 k)
  run-Named (op_close ∷ ops) spp n w p h =
      Ends-bind (λ _. Named spp n) (λ _. Named spp (opens n ops)) (λ _. ⊥) (perform os op_close)
        (λ _. run os ops) w (close-Named spp n w h) (λ _ u k. run-Named ops spp n u p.1 k)
  run-Named (op_set_read_notify m ∷ ops) spp n w p h =
      Ends-bind (λ _. Named spp n) (λ _. Named spp (opens n ops)) (λ _. ⊥)
        (perform os (op_set_read_notify m)) (λ _. run os ops) w (notify-Named m spp n w h)
        (λ _ u k. run-Named ops spp n u p.1 k)
  run-Named (op_init s r ∷ ops) spp n w p h = elim p.0 [ ]
  run-Named (op_send d m ∷ ops) spp n w p h = elim p.0 [ ]
