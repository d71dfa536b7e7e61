-- ===== src/Linux/Devices/Listing/Resources.antt =====
-- Which descriptors and memory blocks the listing holds.
use mathlib.Core.Option
use lib_sp.Base.{
  ℕ, suc, ◌≤◌, ◌≡◌, refl, Bool, false, Option, none, some, List, [], ◌∷◌, ◌++◌, ℤ, pos, eq_ℤ,
  eq_ℤ_refl, is_negative, ◌==◌, length, replicate, map, remove_first, remove_first_head, arith,
  if◌then◌else◌,
}
use lib_sp.Effect.{pure, Ends, Ends-bind, Ends-if}
use lib_sp.Linux.Devices.{sys_dir, pts_dir, is_dot}
use lib_sp.Linux.Devices.Listing.{
  call_scandir, call_free, call_open, call_close, Event, event, System, M, get_driver,
  register_comport, probe, probe_serial8250_comports, scan, scan_dir, visit_sys, visit_pts,
  get_available_serial_port, buffer_size, invoke,
}

pub data Resource : Type 0 where
  block : ℕ → Resource
  descriptor : ℤ → Resource

abbrev same : Resource → Resource → Bool
same (block a) (block b) = a == b
same (descriptor a) (descriptor b) = eq_ℤ a b
same _ _ = false

abbrev and_give_back : Resource → Option (List Resource) → Option (List Resource)
and_give_back r none = none
and_give_back r (some rs) = remove_first (same r) rs

abbrev blocks : List (ℕ × List ℕ) → List Resource
blocks = map (λ e. block e.0)

give_back_newest : (r : Resource) (rs : List Resource) → and_give_back r (some (r ∷ rs)) ≡ some rs
give_back_newest (block a) rs = remove_first_head (same (block a)) (block a) rs (ground arith)
give_back_newest (descriptor a) rs =
    remove_first_head (same (descriptor a)) (descriptor a) rs (eq_ℤ_refl a)

-- How often `open` gave the descriptor 0.
unfoldable pub zero_opens : List Event → ℕ
zero_opens [] = 0
zero_opens (event (call_open path) r ∷ t) =
    if eq_ℤ (pos 0) r then suc (zero_opens t) else zero_opens t
zero_opens (event c r ∷ t) = zero_opens t

module _ (os : System) where
  -- What is held after the calls of a trace, the newest first; `none` where something was given back
  -- that was not held.
  unfoldable pub held : List Event → Option (List Resource)
  held [] = some []
  held (event (call_scandir path) r ∷ t) =
      let u = event (call_scandir path) r ∷ t in
      if is_negative r
      then held t
      else Option.map (λ rs. (blocks (os.entries u) ++ block (os.name_list u) ∷ []) ++ rs) (held t)
  held (event (call_free p) r ∷ t) = and_give_back (block p) (held t)
  held (event (call_open path) r ∷ t) =
      if is_negative r then held t else Option.map (λ rs. descriptor r ∷ rs) (held t)
  held (event (call_close fd) r ∷ t) = and_give_back (descriptor fd) (held t)
  held (event c r ∷ t) = held t

  -- Beside `rs` the descriptor 0 is held, once for each `open` that gave it.
  abbrev pub Holds : List Resource → List Event → Type 0
  Holds rs t = held t ≡ some (rs ++ replicate (zero_opens t) (descriptor (pos 0)))

  -- `readlink` has filled the buffer.
  abbrev pub BufferFull : List Event → Type 0
  BufferFull t = buffer_size ≤ length (os.target t)

  get_driver-Holds :
      (rs : List Resource) (tty : List ℕ) (t : List Event)
      → Holds rs t
      → Ends (λ _. Holds rs) BufferFull (get_driver os tty t)
  unfolding get_driver held zero_opens
  get_driver-Holds rs tty t h = ground arith

  register_comport-Holds :
      (rs : List Resource) (lists : List (List ℕ) × List (List ℕ)) (dir : List ℕ) (t : List Event)
      → Holds rs t
      → Ends (λ _. Holds rs) BufferFull (register_comport os lists dir t)
  unfolding register_comport
  register_comport-Holds rs lists dir t h =
      Ends-bind (λ _. Holds rs) (λ _. Holds rs) BufferFull (get_driver os dir) _ t
        (get_driver-Holds rs dir t h) (λ _ u k. k)

  probe-Holds :
      (com_list : List (List ℕ)) (it : List ℕ) (t : List Event)
      → Holds [] t
      → Ends (λ _. Holds []) BufferFull (probe os com_list it t)
  unfolding probe held zero_opens
  probe-Holds com_list it t h = ground (
    arith,
    h,
    give_back_newest (descriptor (os.result t (call_open it)))
        (replicate (zero_opens t) (descriptor (pos 0))),
  )

  probe_serial8250_comports-Holds :
      (com_list rest : List (List ℕ)) (t : List Event)
      → Holds [] t
      → Ends (λ _. Holds []) BufferFull (probe_serial8250_comports os com_list rest t)
  unfolding probe_serial8250_comports
  probe_serial8250_comports-Holds com_list [] t h = h
  probe_serial8250_comports-Holds com_list (it ∷ rest) t h =
      Ends-bind (λ _. Holds []) (λ _. Holds []) BufferFull (probe os com_list it) _ t
        (probe-Holds com_list it t h) (λ l u k. probe_serial8250_comports-Holds l rest u k)

  -- A call of `free` of what is held as the newest.
  free-Holds :
      (rs : List Resource) (p : ℕ) (t : List Event)
      → Holds (block p ∷ rs) t
      → Ends (λ _. Holds rs) BufferFull (invoke os (call_free p) t)
  unfolding held zero_opens
  free-Holds rs p t h =
      rw (h, give_back_newest (block p) (rs ++ replicate (zero_opens t) (descriptor (pos 0)))) refl

  module _ {A : Type 0} (visit : A → List ℕ → M A) where
    -- What is done with a name holds nothing more afterwards.
    abbrev Neutral : Type 0
    Neutral =
        (rs : List Resource) (a : A) (name : List ℕ) (t : List Event)
        → Holds rs t
        → Ends (λ _. Holds rs) BufferFull (visit a name t)

    scan-Holds :
        (rs : List Resource) (a : A) (entries : List (ℕ × List ℕ)) (t : List Event)
        → Neutral
        → Holds (blocks entries ++ rs) t
        → Ends (λ _. Holds rs) BufferFull (scan os visit a entries t)
    unfolding scan
    scan-Holds rs a [] t neutral h = h
    scan-Holds rs a (entry ∷ rest) t neutral h =
        let all : List Resource = blocks (entry ∷ rest) ++ rs in
        let left : List Resource = blocks rest ++ rs in
        Ends-bind (λ _. Holds all) (λ _. Holds rs) BufferFull
          (if is_dot entry.1 then pure a else visit a entry.1) _ t
          (Ends-if (λ _. Holds all) BufferFull (is_dot entry.1) (pure a) (visit a entry.1) t
            (λ _. h) (λ _. neutral all a entry.1 t h))
          (λ b u k.
            Ends-bind (λ _. Holds left) (λ _. Holds rs) BufferFull (invoke os (call_free entry.0)) _
              u (free-Holds left entry.0 u k) (λ _ v m. scan-Holds rs b rest v neutral m))

    scan_dir-Holds :
        (path : List ℕ) (a : A) (t : List Event)
        → Neutral
        → Holds [] t
        → Ends (λ _. Holds []) BufferFull (scan_dir os path visit a t)
    unfolding scan_dir held zero_opens
    scan_dir-Holds path a t neutral h =
        let count = os.result t (call_scandir path) in
        let u = event (call_scandir path) count ∷ t in
        Ends-if (λ _. Holds []) BufferFull (is_negative count) (pure a) _ u (λ e. rw e h)
          (λ e.
            Ends-bind (λ _. Holds (block (os.name_list u) ∷ [])) (λ _. Holds []) BufferFull
              (scan os visit a (os.entries u)) _ u
              (scan-Holds (block (os.name_list u) ∷ []) a (os.entries u) u neutral (rw (e, h) refl))
              (λ b v k.
                Ends-bind (λ _. Holds []) (λ _. Holds []) BufferFull
                  (invoke os (call_free (os.name_list u))) (λ _. pure b) v
                  (free-Holds [] (os.name_list u) v k) (λ _ x m. m)))

  -- After the listing no memory block is held, and no descriptor but the descriptor 0, once for each
  -- `open` that gave it; everything was given back once, and nothing else was. The listing ends,
  -- unless `readlink` has filled the buffer of a driver's name: what is read behind the buffer has
  -- no defined behaviour.
  pub get_available_serial_port-Holds :
      Ends (λ _. Holds []) BufferFull (get_available_serial_port os [])
  unfolding get_available_serial_port held zero_opens
  get_available_serial_port-Holds =
      Ends-bind (λ _. Holds []) (λ _. Holds []) BufferFull (scan_dir os sys_dir (visit_sys os) _) _
        []
        (scan_dir-Holds (visit_sys os) sys_dir ([], []) []
          (λ rs lists name t h. register_comport-Holds rs lists (sys_dir ++ name) t h) refl)
        (λ lists u k.
          Ends-bind (λ _. Holds []) (λ _. Holds []) BufferFull
            (probe_serial8250_comports os lists.0 lists.1) _ u
            (probe_serial8250_comports-Holds lists.0 lists.1 u k)
            (λ probed v m.
              Ends-bind (λ _. Holds []) (λ _. Holds []) BufferFull
                (scan_dir os pts_dir (visit_pts os) probed) _ v
                (scan_dir-Holds (visit_pts os) pts_dir probed v (λ rs l name t h. h) m)
                (λ _ x n. n)))
