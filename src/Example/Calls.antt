-- ===== src/Example/Calls.antt =====
-- Where each call of the class `serial_port` leads, on any port that refines the contract.
use lib_sp.Base.{
  Bool, true, false, Option, none, some, ℤ, pos, eq_ℤ, eq_ℤ→eq, ◌≡◌, refl, sym, ap, ◌∙◌, inl, inr,
  length, arith,
}
use lib_sp.Effect.{M, Outcome, blocked, returned, Ends, Ends-weaken}
use lib_sp.Params.Enums.{mode_async}
use lib_sp.Params.Props.{Platform, SpProp}
use lib_sp.Interface.{SerialPort, Op, op_init, op_open, op_close, op_send, call}
use lib_sp.Interface.Contract.{
  View, fresh, ready, opened, Refines, Permitted, Allowed, is_open, after_close, close_code,
  names_receiver,
}
use lib_sp.Example.{
  Client, through, init, open_port, close_port, is_opened, send, this, str_data, not_created,
}

pub is_open-after_close : (v : View) → is_open (after_close v) ≡ false
is_open-after_close fresh = refl
is_open-after_close ready = refl
is_open-after_close opened = refl

module _ (os : Platform) (p : SerialPort) (r : Refines os p) where
  -- The port behind the pointer shows `v`; where there is none, `v` is the first state.
  abbrev pub At : View → Client p → Type 0
  At v c = elim c.psp [ none ↦ v ≡ fresh | some s ↦ r.Shows v s ]

  -- The port is not open, or there is none.
  abbrev pub Over : Client p → Type 0
  Over c = (v : View) × (is_open v ≡ false) × At v c

  abbrev pub Leads : {A : Type 0} → (A → View → Type 0) → A → Client p → Type 0
  Leads P b c = (v : View) × P b v × At v c

  put_back :
      {A : Type 0} (P : A → View → Type 0) (c : Client p) (o : Outcome p.State A)
      → Ends (λ b t. (x : View) × P b x × r.Shows x t) (λ _. ⊥) o
      → Ends
          (Leads P)
          (λ _. ⊥)
          (elim o [
            | returned b t ↦ returned b (record c { psp = some t })
            | blocked t ↦ blocked (record c { psp = some t })
          ])
  put_back P c (returned b t) h = h
  put_back P c (blocked t) h = h

  -- A method leads to what it promises on the port, or to what its value for no pointer promises.
  pub through-Leads :
      {A : Type 0} (P : A → View → Type 0) (a : A) (m : M p.State A) (v : View) (c : Client p)
      → At v c
      → (v ≡ fresh → P a fresh)
      → ((s : p.State)
          → r.Shows v s
          → Ends (λ b t. (x : View) × P b x × r.Shows x t) (λ _. ⊥) (m s))
      → Ends (Leads P) (λ _. ⊥) (through p a m c)
  unfolding through
  through-Leads P a m v c h k f = go c.psp h
    where
      go :
          (o : Option p.State)
          → At v (record c { psp = o })
          → Ends (Leads P) (λ _. ⊥) (through p a m (record c { psp = o }))
      go none h' = (fresh, k h', refl)
      go (some s) h' = put_back P c (m s) (f s h')

  call-Leads :
      (o : Op) (P : ℤ → View → Type 0) (v : View) (c : Client p)
      → Permitted os o v
      → At v c
      → (v ≡ fresh → P not_created fresh)
      → ((b : ℤ) (x : View) → Allowed os o v b x → P b x)
      → Ends (Leads P) (λ _. ⊥) (through p not_created (call p o) c)
  call-Leads o P v c permitted h k f = through-Leads P not_created (call p o) v c h k (λ s shown.
      Ends-weaken (λ b t. (x : View) × Allowed os o v b x × r.Shows x t)
        (λ b t. (x : View) × P b x × r.Shows x t) (call p o s) (r.shows_call o v s permitted shown)
        (λ b t a. (a.0, f b a.0 a.1, a.2)))

  abbrev pub Begins : ℤ → View → Type 0
  Begins c v = (eq_ℤ (pos 0) c ≡ true → v ≡ ready) × (eq_ℤ (pos 0) c ≡ false → is_open v ≡ false)

  pub init-Begins :
      (spp : SpProp) (c : Client p)
      → spp.op_mode ≡ mode_async
      → At fresh c
      → Ends (Leads Begins) (λ _. ⊥) (init p spp c)
  unfolding call
  init-Begins spp c mode h =
      call-Leads (op_init spp (some this)) Begins fresh c
        (mode, inl refl, names_receiver os this fresh) h (λ _. ((λ e. cc), λ _. refl))
        (λ b x a.
          ((λ e. a.1 ∙ rw e refl), λ e. let q : x ≡ fresh = a.1 ∙ rw e refl in ap is_open q))

  abbrev pub Opens : ℤ → View → Type 0
  Opens c v = (eq_ℤ (pos 0) c ≡ true → v ≡ opened) × (eq_ℤ (pos 0) c ≡ false → v ≡ ready)

  pub open-Opens : (c : Client p) → At ready c → Ends (Leads Opens) (λ _. ⊥) (open_port p c)
  unfolding call
  open-Opens c h =
      call-Leads op_open Opens ready c refl h (λ e. cc)
        (λ b x a. elim a [
          | inl (z, o) ↦ (λ _. o, λ e. ground arith)
          | inr (nz, q) ↦ (λ e. elim (nz (sym (eq_ℤ→eq (pos 0) b e))) [ ], λ _. q)
        ])

  -- The code of `close` from the state `u`, and where it leads.
  abbrev pub Closes : View → ℤ → View → Type 0
  Closes u c v = (is_open v ≡ false) × (u ≡ opened → c ≡ pos 0)

  close_code-opened : (u : View) → u ≡ opened → close_code u ≡ pos 0
  close_code-opened fresh e = cc
  close_code-opened ready e = cc
  close_code-opened opened e = refl

  pub close-Closes :
      (v : View) (c : Client p) → At v c → Ends (Leads (Closes v)) (λ _. ⊥) (close_port p c)
  unfolding call
  close-Closes v c h =
      call-Leads op_close (Closes v) v c tt h (λ e. (refl, λ o. cc))
        (λ b x a. (ap is_open a.1 ∙ is_open-after_close v, λ o. a.0 ∙ close_code-opened v o))

  abbrev pub Sends : ℤ → View → Type 0
  Sends c v = v ≡ opened

  pub send-Sends :
      (c : Client p)
      → At opened c
      → Ends (Leads Sends) (λ _. ⊥) (send p str_data (length str_data) c)
  unfolding call
  send-Sends c h =
      call-Leads (op_send (some str_data) (length str_data)) Sends opened c (λ _. refl) h (λ e. cc)
        (λ b x a. a.1)

  abbrev pub Finds : Bool → View → Type 0
  Finds b v = (b ≡ true) × (v ≡ opened)

  pub is_opened-Finds : (c : Client p) → At opened c → Ends (Leads Finds) (λ _. ⊥) (is_opened p c)
  is_opened-Finds c h =
      through-Leads Finds false p.is_opened opened c h (λ e. cc)
        (λ s k. rw (r.shows_is_opened opened s k) (opened, (refl, refl), k))
