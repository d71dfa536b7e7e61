-- ===== src/Linux/Devices/Listing/Names.antt =====
-- The listing with all its calls against the plain one of Linux.Devices.
use lib_sp.Base.{
  after_last, sym, ℕ, ◌<◌, ◌≡◌, refl, true, false, Option, none, some, List, [], ◌∷◌, ◌++◌, ℤ, pos,
  minus, is_negative, length, map, codes, push_back, arith, Option-cases, inl, inr, if◌then◌else◌,
}
use lib_sp.Effect.{pure, Ends, Ends-bind, Ends-if}
use lib_sp.Linux.Devices
use lib_sp.Linux.Devices.{DeviceFs, sys_dir, pts_dir, is_dot, names_of, port_unknown}
use lib_sp.Linux.Devices.Listing.{
  Call, call_scandir, call_free, call_lstat, call_readlink, call_open, call_ioctl, call_close,
  Event, event, System, M, get_driver, register_comport, probe, probe_serial8250_comports, scan,
  scan_dir, visit_sys, visit_pts, get_available_serial_port, buffer_size,
}

abbrev length_of : Option (List (List ℕ)) → ℤ
length_of none = minus 1
length_of (some names) = pos (length names)

abbrev bytes_put : Option (List ℕ) → ℤ
bytes_put none = minus 1
bytes_put (some s) = pos (length s)

abbrev or_empty : {A : Type 0} → Option (List A) → List A
or_empty none = []
or_empty (some s) = s

abbrev type_or : Option ℕ → ℕ
type_or none = 0
type_or (some n) = n

abbrev status : Option ℕ → ℤ
status none = minus 1
status (some n) = pos 0

-- What the newest call is about.
abbrev newest : {A : Type 0} → (Call → A) → A → List Event → A
newest get a [] = a
newest get a (event c r ∷ t) = get c

-- A system that answers from `fs`, whatever was called before. All blocks have the address 1.
abbrev pub system_of : DeviceFs → System
system_of fs = record {
  result = λ t c. elim c [
    | call_scandir path ↦ length_of (fs.scandir path)
    | call_free p ↦ pos 0
    | call_lstat path ↦ pos 0
    | call_readlink path ↦ bytes_put (fs.readlink path)
    | call_open path ↦ fs.open_tty path
    | call_ioctl fd ↦ status (fs.serial_type fd)
    | call_close fd ↦ pos 0
  ];
  name_list = λ _. 1;
  entries =
      newest
        (λ c. elim c [
          | call_scandir path ↦ map (λ name. (1, name)) (or_empty (fs.scandir path))
          | _ ↦ []
        ])
        [];
  is_link = newest (λ c. elim c [ call_lstat path ↦ fs.is_link path | _ ↦ false ]) false;
  target = newest (λ c. elim c [ call_readlink path ↦ or_empty (fs.readlink path) | _ ↦ [] ]) [];
  serial_type = newest (λ c. elim c [ call_ioctl fd ↦ type_or (fs.serial_type fd) | _ ↦ 0 ]) 0;
}

-- The targets of links fit into the buffer with a null character.
abbrev ShortTargets : DeviceFs → Type 0
ShortTargets fs =
    (path target : List ℕ) → fs.readlink path ≡ some target → length target < buffer_size

-- The value of a method that returns.
abbrev Gives : {A : Type 0} → A → A → List Event → Type 0
Gives a b t = b ≡ a

module _ (fs : DeviceFs) where
  abbrev os : System
  os = system_of fs

  get_driver-Gives :
      (tty : List ℕ) (t : List Event)
      → ShortTargets fs
      → Ends (Gives (Devices.get_driver fs tty)) (λ _. ⊥) (get_driver os tty t)
  unfolding get_driver Devices.get_driver after_last
  get_driver-Gives tty t short =
      let path = (tty ++ codes "/device") ++ codes "/driver" in
      elim (Option-cases (fs.readlink path)) [
        | inl e ↦ ground (arith, e)
        | inr ([], e) ↦ ground (arith, e)
        | inr (x ∷ xs, e) ↦ ground (arith, e, short path (x ∷ xs) e)
      ]

  register_comport-Gives :
      (lists : List (List ℕ) × List (List ℕ)) (dir : List ℕ) (t : List Event)
      → ShortTargets fs
      → Ends
          (Gives (Devices.register_comport fs lists dir))
          (λ _. ⊥)
          (register_comport os lists dir t)
  unfolding register_comport Devices.register_comport
  register_comport-Gives lists dir t short =
      Ends-bind (Gives (Devices.get_driver fs dir)) (Gives (Devices.register_comport fs lists dir))
        (λ _. ⊥) (get_driver os dir) _ t (get_driver-Gives dir t short) (λ driver u e. rw e refl)

  probe-Gives :
      (com_list : List (List ℕ)) (it : List ℕ) (t : List Event)
      → Ends
          (Gives (if Devices.probe fs it then push_back com_list it else com_list))
          (λ _. ⊥)
          (probe os com_list it t)
  unfolding probe Devices.probe
  probe-Gives com_list it t = elim (Option-cases (fs.serial_type (fs.open_tty it))) [
    | inl e ↦ ground (arith, e)
    | inr (n, e) ↦ ground (arith, e)
  ]

  probe_serial8250_comports-Gives :
      (com_list rest : List (List ℕ)) (t : List Event)
      → Ends
          (Gives (Devices.probe_serial8250_comports fs com_list rest))
          (λ _. ⊥)
          (probe_serial8250_comports os com_list rest t)
  unfolding probe_serial8250_comports Devices.probe_serial8250_comports
  probe_serial8250_comports-Gives com_list [] t = refl
  probe_serial8250_comports-Gives com_list (it ∷ rest) t =
      let probed = if Devices.probe fs it then push_back com_list it else com_list in
      Ends-bind (Gives probed) (Gives (Devices.probe_serial8250_comports fs probed rest)) (λ _. ⊥)
        (probe os com_list it) (λ l. probe_serial8250_comports os l rest) t
        (probe-Gives com_list it t) (λ l u e. rw e (probe_serial8250_comports-Gives probed rest u))

  none_read :
      (found : Option (List (List ℕ))) → is_negative (length_of found) ≡ true → or_empty found ≡ []
  none_read none e = refl
  none_read (some names) e = cc

  module _ {A : Type 0} (visit : A → List ℕ → M A) (pure_visit : A → List ℕ → A) where
    -- A loop over names that passes the default entries over.
    unfoldable scanned : A → List (List ℕ) → A
    scanned a [] = a
    scanned a (name ∷ rest) = scanned (if is_dot name then a else pure_visit a name) rest

    abbrev Visits : Type 0
    Visits =
        (a : A) (name : List ℕ) (t : List Event)
        → Ends (Gives (pure_visit a name)) (λ _. ⊥) (visit a name t)

    scan-Gives :
        (a : A) (names : List (List ℕ)) (t : List Event)
        → Visits
        → Ends
            (Gives (scanned a names))
            (λ _. ⊥)
            (scan os visit a (map (λ name. (1, name)) names) t)
    unfolding scan scanned
    scan-Gives a [] t visits = refl
    scan-Gives a (name ∷ rest) t visits =
        let b = if is_dot name then a else pure_visit a name in
        Ends-bind (Gives b) (Gives (scanned b rest)) (λ _. ⊥)
          (if is_dot name then pure a else visit a name) _ t
          (Ends-if (Gives b) (λ _. ⊥) (is_dot name) (pure a) (visit a name) t (λ e. rw e refl)
            (λ e. rw e (visits a name t)))
          (λ c u e. rw e (scan-Gives b rest _ visits))

    scan_dir-Gives :
        (path : List ℕ) (a : A) (t : List Event)
        → Visits
        → Ends (Gives (scanned a (names_of fs path))) (λ _. ⊥) (scan_dir os path visit a t)
    unfolding scan_dir scanned
    scan_dir-Gives path a t visits =
        let names = or_empty (fs.scandir path) in
        let count = length_of (fs.scandir path) in
        let u = event (call_scandir path) count ∷ t in
        Ends-if (Gives (scanned a names)) (λ _. ⊥) (is_negative count) (pure a) _ u
          (λ e. rw (none_read (fs.scandir path) e) refl)
          (λ e.
            Ends-bind (Gives (scanned a names)) (Gives (scanned a names)) (λ _. ⊥)
              (scan os visit a (map (λ name. (1, name)) names)) _ u (scan-Gives a names u visits)
              (λ b v k. k))

  plain_sys : List (List ℕ) × List (List ℕ) → List ℕ → List (List ℕ) × List (List ℕ)
  plain_sys lists name = Devices.register_comport fs lists (sys_dir ++ name)

  plain_pts : List (List ℕ) → List ℕ → List (List ℕ)
  plain_pts com_list name = push_back com_list (sys_dir ++ name)

  scanned-sys :
      (lists : List (List ℕ) × List (List ℕ)) (names : List (List ℕ))
      → scanned (visit_sys os) plain_sys lists names ≡ Devices.scan_sys fs lists names
  unfolding scanned Devices.scan_sys plain_sys
  scanned-sys lists [] = refl
  scanned-sys lists (name ∷ rest) =
      scanned-sys (if is_dot name then lists else plain_sys lists name) rest

  scanned-pts :
      (com_list names : List (List ℕ))
      → scanned (visit_pts os) plain_pts com_list names ≡ Devices.scan_pts fs com_list names
  unfolding scanned Devices.scan_pts plain_pts
  scanned-pts com_list [] = refl
  scanned-pts com_list (name ∷ rest) =
      scanned-pts (if is_dot name then com_list else plain_pts com_list name) rest

  -- On a system that answers from a fixed file system, where the target of each link fits into the
  -- buffer of 1024 bytes with a null character: the listing with all its calls returns the list
  -- that the plain listing gives.
  get_available_serial_port-Gives :
      (t : List Event)
      → ShortTargets fs
      → Ends
          (Gives (Devices.get_available_serial_port fs))
          (λ _. ⊥)
          (get_available_serial_port os t)
  unfolding get_available_serial_port Devices.get_available_serial_port plain_sys plain_pts
  get_available_serial_port-Gives t short =
      let lists = Devices.scan_sys fs ([], []) (names_of fs sys_dir) in
      let probed = Devices.probe_serial8250_comports fs lists.0 lists.1 in
      let com_all = Devices.scan_pts fs probed (names_of fs pts_dir) in
      Ends-bind (Gives lists) (Gives (Devices.get_available_serial_port fs)) (λ _. ⊥)
        (scan_dir os sys_dir (visit_sys os) ([], [])) _ t
        (rw (sym (scanned-sys ([], []) (names_of fs sys_dir))) (
          scan_dir-Gives (visit_sys os) plain_sys sys_dir ([], []) t
            (λ l name u. register_comport-Gives l (sys_dir ++ name) u short)))
        (λ l u e. rw e (
          Ends-bind (Gives probed) (Gives (Devices.get_available_serial_port fs)) (λ _. ⊥)
            (probe_serial8250_comports os lists.0 lists.1) _ u
            (probe_serial8250_comports-Gives lists.0 lists.1 u)
            (λ p v f. rw f (
              Ends-bind (Gives com_all) (Gives (Devices.get_available_serial_port fs)) (λ _. ⊥)
                (scan_dir os pts_dir (visit_pts os) probed) _ v
                (rw (sym (scanned-pts probed (names_of fs pts_dir)))
                  (scan_dir-Gives (visit_pts os) plain_pts pts_dir probed v (λ c name x. refl)))
                (λ c x g. rw g refl)))))
