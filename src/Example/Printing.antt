-- ===== src/Example/Printing.antt =====
-- The methods of the class `serial_port` print nothing.
use lib_sp.Base.{Option, none, some, ◌≡◌, refl}
use lib_sp.Effect.{M, Outcome, returned, blocked, Ends}
use lib_sp.Interface.{SerialPort}
use lib_sp.Example.{Client, through}

module _ (p : SerialPort) where
  pub through-printed :
      {A : Type 0} (a : A) (m : M p.State A) (c : Client p)
      → Ends (λ _ d. d.printed ≡ c.printed) (λ _. Unit {0}) (through p a m c)
  unfolding through
  through-printed {A} a m c = go c.psp
    where
      back :
          (o : Outcome p.State A)
          → Ends
              (λ _ d. d.printed ≡ c.printed)
              (λ _. Unit {0})
              (elim o [
                | returned b t ↦ returned b (record c { psp = some t })
                | blocked t ↦ blocked (record c { psp = some t })
              ])
      back (returned b t) = refl
      back (blocked t) = tt

      go :
          (o : Option p.State)
          → Ends
              (λ _ d. d.printed ≡ c.printed)
              (λ _. Unit {0})
              (through p a m (record c { psp = o }))
      go none = refl
      go (some s) = back (m s)
