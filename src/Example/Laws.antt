-- ===== src/Example/Laws.antt =====
-- What `main` leaves behind, on any port that refines the interface's contract.
use lib_sp.Base.{
  sym, ◌≢◌, subst, Bool-cases, ℕ, zero, suc, Bool, true, false, not, Option, none, some, List, [],
  ◌∷◌, map, ℤ, pos, eq_ℤ, ◌≡◌, refl, inl, inr, length, arith,
}
use lib_sp.Effect.{◌>>◌, Ends, Ends-bind, Ends-if, Ends-weaken, Ends-mono, Ends-and}
use lib_sp.Params.Enums.{mode_async}
use lib_sp.Params.Props.{Platform, os_is_win, os_is_linux}
use lib_sp.Interface.{SerialPort, sp_create, sp_release}
use lib_sp.Interface.Contract.{View, fresh, ready, opened, Refines, is_open, after_close}
use lib_sp.Example.{
  Client, Message, print_message, print_all, init, open_port, close_port, is_opened, send, destroy,
  get_version, get_avail_serial_port, send_loop, work, properties, finish, give_up, use_port,
  open_and_use, init_and_use, run, main, str_data, not_created, through, no_object, close_done,
  available, open_error, init_error, send_done, open_done, init_done, version_is,
}
use lib_sp.Example.Printing.{through-printed}
use lib_sp.Example.Calls.{
  is_open-after_close, At, Leads, Over, Begins, Opens, Sends, Finds, through-Leads, init-Begins,
  open-Opens, Closes, close-Closes, send-Sends, is_opened-Finds,
}

-- How the printed messages may end, with the newest first: with the close of the port, or with an
-- error of `init` or `open`.
abbrev pub Told : List Message → Type 0
Told (no_object ∷ ms) = Unit
Told (init_error c ∷ ms) = c ≢ pos 0
Told (open_error c ∷ ms) = c ≢ pos 0
Told (close_done ∷ ms) = Unit
Told _ = ⊥

module _ (os : Platform) (p : SerialPort) (r : Refines os p) where
  -- The port is not open, or there is none, and what was printed ends as it may.
  abbrev pub Done : Client p → Type 0
  Done c = Over os p r c × Told c.printed

  close-keeps :
      (v : View) (c : Client p)
      → At os p r v c
      → Ends
          (λ b d. Leads os p r (Closes os p r v) b d × (d.printed ≡ c.printed))
          (λ _. ⊥)
          (close_port p c)
  close-keeps v c h =
      Ends-mono (close_port p c)
        (Ends-and (Leads os p r (Closes os p r v)) (λ _ d. d.printed ≡ c.printed) (λ _. ⊥)
          (λ _. Unit) (close_port p c) (close-Closes os p r v c h)
          (through-printed p not_created p.close_port c))
        (λ _ _ a. a) (λ _ q. q.0)

  give_up-Done :
      (m : Message) (v : View) (c : Client p)
      → At os p r v c
      → Told (m ∷ c.printed)
      → Ends (λ _. Done) (λ _. ⊥) (give_up p m c)
  unfolding give_up print_message
  give_up-Done m v c h t =
      Ends-bind (λ b d. Leads os p r (Closes os p r v) b d × (d.printed ≡ m ∷ c.printed))
        (λ _. Done) (λ _. ⊥) (close_port p) _ (record c { printed = m ∷ c.printed })
        (close-keeps v _ h) (λ _ d a. ((a.0.0, a.0.1.0, a.0.2), subst Told (sym a.1) t))

  finish-Done : (c : Client p) → At os p r opened c → Ends (λ _. Done) (λ _. ⊥) (finish p c)
  unfolding finish print_message
  finish-Done c h =
      Ends-bind (Leads os p r (Closes os p r opened)) (λ _. Done) (λ _. ⊥) (close_port p) _ c
        (close-Closes os p r opened c h) (λ b d a. rw (a.1.1 refl) ((a.0, a.1.0, a.2), tt))

  send_loop-At :
      (n : ℕ) (c : Client p)
      → At os p r opened c
      → Ends (λ _. At os p r opened) (λ _. ⊥) (send_loop p n c)
  unfolding send_loop print_message
  send_loop-At zero c h = h
  send_loop-At (suc n) c h =
      Ends-bind (Leads os p r (Sends os p r)) (λ _. At os p r opened) (λ _. ⊥)
        (send p str_data (length str_data)) _ c (send-Sends os p r c h)
        (λ b d a.
          let k : At os p r opened d = subst (λ v. At os p r v d) a.1 a.2 in
          elim (Bool-cases (eq_ℤ (pos 0) b)) [
            | inl e ↦ rw e k
            | inr e ↦ rw e (send_loop-At n (record d { printed = send_done ∷ d.printed }) k)
          ])

  work-At :
      (here : Platform) (is_send : ℤ) (c : Client p)
      → At os p r opened c
      → Ends (λ _. At os p r opened) (λ _. ⊥) (work p here is_send c)
  unfolding work print_message
  work-At os_is_linux is_send c h = h
  work-At os_is_win is_send c h =
      Ends-if (λ _. At os p r opened) (λ _. ⊥) (eq_ℤ (pos 1) is_send) _ _ c
        (λ _. send_loop-At 100 c h) (λ _. h)

  work_and_finish-Done :
      (here : Platform) (is_send : ℤ) (c : Client p)
      → At os p r opened c
      → Ends (λ _. Done) (λ _. ⊥) ((work p here is_send >> finish p) c)
  work_and_finish-Done here is_send c h =
      Ends-bind (λ _. At os p r opened) (λ _. Done) (λ _. ⊥) (work p here is_send) (λ _. finish p) c
        (work-At here is_send c h) (λ _ d k. finish-Done d k)

  use_port-Done :
      (here : Platform) (is_send : ℤ) (c : Client p)
      → At os p r opened c
      → Ends (λ _. Done) (λ _. ⊥) (use_port p here is_send c)
  unfolding use_port get_version print_message
  use_port-Done here is_send c h =
      Ends-bind (Leads os p r (Finds os p r)) (λ _. Done) (λ _. ⊥) (is_opened p) _ c
        (is_opened-Finds os p r c h)
        (λ b d a. rw (a.1.0) (
          work_and_finish-Done here is_send
            (record d {
              printed =
                  version_is (elim d.psp [ none ↦ [] | some _ ↦ p.get_version ])
                  ∷ open_done
                  ∷ d.printed;
            })
            (subst (λ v. At os p r v d) a.1.1 a.2)))

  open_and_use-Done :
      (here : Platform) (is_send : ℤ) (c : Client p)
      → At os p r ready c
      → Ends (λ _. Done) (λ _. ⊥) (open_and_use p here is_send c)
  unfolding open_and_use
  open_and_use-Done here is_send c h =
      Ends-bind (Leads os p r (Opens os p r)) (λ _. Done) (λ _. ⊥) (open_port p) _ c
        (open-Opens os p r c h)
        (λ b d a.
          Ends-if (λ _. Done) (λ _. ⊥) (not (eq_ℤ (pos 0) b)) _ _ d
            (λ e. give_up-Done (open_error b) a.0 d a.2 (ground (arith, e)))
            (λ e.
              use_port-Done here is_send d (subst (λ v. At os p r v d) (a.1.0 (ground arith)) a.2)))

  print_all-At :
      (ms : List Message) (v : View) (c : Client p)
      → At os p r v c
      → Ends (λ _. At os p r v) (λ _. ⊥) (print_all p ms c)
  unfolding print_all print_message
  print_all-At [] v c h = h
  print_all-At (m ∷ ms) v c h = print_all-At ms v (record c { printed = m ∷ c.printed }) h

  properties-async : (here : Platform) (sp_id : ℤ) → (properties p here sp_id).op_mode ≡ mode_async
  unfolding properties
  properties-async os_is_win sp_id = refl
  properties-async os_is_linux sp_id = refl

  init_and_use-Done :
      (here : Platform) (sp_id is_send : ℤ) (c : Client p)
      → At os p r fresh c
      → Ends (λ _. Done) (λ _. ⊥) (init_and_use p here sp_id is_send c)
  unfolding init_and_use print_message
  init_and_use-Done here sp_id is_send c h =
      Ends-bind (Leads os p r (Begins os p r)) (λ _. Done) (λ _. ⊥)
        (init p (properties p here sp_id)) _ c
        (init-Begins os p r (properties p here sp_id) c (properties-async here sp_id) h)
        (λ b d a.
          Ends-if (λ _. Done) (λ _. ⊥) (not (eq_ℤ (pos 0) b)) _ _ d
            (λ e. give_up-Done (init_error b) a.0 d a.2 (ground (arith, e)))
            (λ e.
              open_and_use-Done here is_send (record d { printed = init_done ∷ d.printed })
                (subst (λ v. At os p r v d) (a.1.0 (ground arith)) a.2)))

  run-Done :
      (here : Platform) (sp_id is_send : ℤ) (c : Client p)
      → At os p r fresh c
      → Ends (λ _. Done) (λ _. ⊥) (run p here sp_id is_send c)
  unfolding run get_avail_serial_port
  run-Done here sp_id is_send c h =
      let ms = map available (elim c.psp [ none ↦ [] | some _ ↦ p.get_available_serial_port ]) in
      Ends-bind (λ _. At os p r fresh) (λ _. Done) (λ _. ⊥) (print_all p ms) _ c
        (print_all-At ms fresh c h) (λ _ d k. init_and_use-Done here sp_id is_send d k)

  created-At :
      (has_memory : Bool) → At os p r fresh (record { psp = sp_create p has_memory; printed = [] })
  created-At false = refl
  created-At true = r.shows_create

  release-Closes :
      (runs_destructor : Bool) (o : Option p.State) (v : View) (s : p.State)
      → is_open v ≡ false
      → r.Shows v s
      → Ends
          (λ _ t. (x : View) × (is_open x ≡ false) × r.Shows x t)
          (λ _. ⊥)
          (sp_release p runs_destructor o s)
  unfolding sp_release
  release-Closes runs_destructor none v s c h = (v, c, h)
  release-Closes false (some _) v s c h = (v, c, h)
  release-Closes true (some _) v s c h =
      Ends-weaken (λ _ t. r.Shows (after_close v) t)
        (λ b t. (x : View) × (is_open x ≡ false) × r.Shows x t) (p.destroy s)
        (r.shows_destroy v s h) (λ _ t g. (after_close v, is_open-after_close v, g))

  destroy-Done :
      (runs_destructor : Bool) (c : Client p)
      → Done c
      → Ends (λ _. Done) (λ _. ⊥) (destroy p runs_destructor c)
  unfolding destroy
  destroy-Done runs_destructor c o =
      Ends-mono (through p tt (sp_release p runs_destructor c.psp) c)
        (Ends-and (Leads os p r (λ _ v. is_open v ≡ false)) (λ _ d. d.printed ≡ c.printed) (λ _. ⊥)
          (λ _. Unit) _
          (through-Leads os p r (λ _ v. is_open v ≡ false) tt (sp_release p runs_destructor c.psp)
            o.0.0 c o.0.2 (λ _. refl) (λ s k. release-Closes runs_destructor c.psp o.0.0 s o.0.1 k))
          (through-printed p tt (sp_release p runs_destructor c.psp) c))
        (λ _ d a. (a.0, subst Told (sym a.1) o.1)) (λ _ q. q.0)

  -- The example program always comes to its end: on a port that refines the interface's contract no
  -- call blocks, whatever the calls return, also where an allocation fails. In the end the port is
  -- not open, or there is none, whether or not `delete` runs the port's destructor; and the last
  -- message says that there is no object, that the port was closed, or that `init` or `open` failed
  -- with a code other than 0.
  pub main-Done :
      (runs_destructor : Bool) (here : Platform) (has_object has_memory : Bool) (sp_id is_send : ℤ)
      → Ends (λ _. Done) (λ _. ⊥) (main p runs_destructor here has_object has_memory sp_id is_send)
  unfolding main print_message
  main-Done runs_destructor here false has_memory sp_id is_send = ((fresh, refl, refl), tt)
  main-Done runs_destructor here true has_memory sp_id is_send =
      Ends-bind (λ _. Done) (λ _. Done) (λ _. ⊥) (run p here sp_id is_send)
        (λ _. destroy p runs_destructor) (record { psp = sp_create p has_memory; printed = [] })
        (run-Done here sp_id is_send _ (created-At has_memory))
        (λ _ c o. destroy-Done runs_destructor c o)
