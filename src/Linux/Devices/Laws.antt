-- ===== src/Linux/Devices/Laws.antt =====
-- Which devices are listed, and by which names.
use mathlib.Core.List.{append_assoc, append-nil}
use lib_sp.Base.{
  push_back, ℕ, ◌≡◌, refl, sym, ap, ◌∙◌, Bool, not, ◌&&◌, List, [], ◌∷◌, ◌++◌, bytes_eq, ltb,
  length, codes, after_last-append, Lacks, All, keep, map, inl, inr, Bool-cases,
}
use lib_sp.Params.Props.{name_desc_zero}
use lib_sp.Linux.Devices.{
  DeviceFs, sys_dir, pts_dir, basename, is_dot, get_driver, register_comport, probe,
  probe_serial8250_comports, scan_sys, scan_pts, names_of, get_available_serial_port,
}

-- A directory entry's name holds no slash.
abbrev pub Names : List (List ℕ) → Type 0
Names = All (Lacks b'/')

basename-sys : (name : List ℕ) → Lacks b'/' name → basename (sys_dir ++ name) ≡ name
basename-sys name h = after_last-append b'/' (sys_dir ++ name) (codes "/sys/class/tty") name h

abbrev pub dev : List ℕ → List ℕ
dev name = codes "/dev/" ++ name

module _ (fs : DeviceFs) where
  -- The entry of /sys/class/tty has a driver, which is not, or is, that of a 8250 port.
  abbrev pub is_plain : List ℕ → Bool
  is_plain name =
      not (is_dot name)
      && (ltb 0 (length (get_driver fs (sys_dir ++ name)))
          && not (bytes_eq (get_driver fs (sys_dir ++ name)) (codes "serial8250")))

  abbrev pub is_8250 : List ℕ → Bool
  is_8250 name =
      not (is_dot name)
      && (ltb 0 (length (get_driver fs (sys_dir ++ name)))
          && bytes_eq (get_driver fs (sys_dir ++ name)) (codes "serial8250"))

  scan_sys_lem :
      (c e : List (List ℕ)) (names : List (List ℕ))
      → Names names
      → scan_sys fs (c, e) names
        ≡ (c ++ map dev (keep is_plain names), e ++ map dev (keep is_8250 names))
  unfolding scan_sys register_comport
  scan_sys_lem c e [] h =
      ap (λ w. (w, e)) (sym (append-nil c)) ∙ ap (λ w. (c ++ [], w)) (sym (append-nil e))
  scan_sys_lem c e (name ∷ rest) h = elim (Bool-cases (is_dot name)) [
    | inl dot ↦ rw dot (scan_sys_lem c e rest h.1)
    | inr entry ↦
        rw (entry, basename-sys name h.0)
          (elim (Bool-cases (ltb 0 (length (get_driver fs (sys_dir ++ name))))) [
            | inl driver ↦
                elim (Bool-cases
                  (bytes_eq (get_driver fs (sys_dir ++ name)) (codes "serial8250"))) [
                    | inl old ↦
                        rw (driver, old)
                          (scan_sys_lem c (push_back e (dev name)) rest h.1
                            ∙ ap (λ w. (c ++ map dev (keep is_plain rest), w))
                                (append_assoc e (dev name ∷ []) _))
                    | inr plain ↦
                        rw (driver, plain)
                          (scan_sys_lem (push_back c (dev name)) e rest h.1
                            ∙ ap (λ w. (w, e ++ map dev (keep is_8250 rest)))
                                (append_assoc c (dev name ∷ []) _))
                  ]
            | inr none_found ↦ rw none_found (scan_sys_lem c e rest h.1)
          ])
  ]

  probe_lem :
      (c names : List (List ℕ)) → probe_serial8250_comports fs c names ≡ c ++ keep (probe fs) names
  unfolding probe_serial8250_comports
  probe_lem c [] = rw append-nil
  probe_lem c (it ∷ rest) = elim (Bool-cases (probe fs it)) [
    | inl hit ↦ rw hit (probe_lem (push_back c it) rest ∙ append_assoc c (it ∷ []) _)
    | inr miss ↦ rw miss (probe_lem c rest)
  ]

  scan_pts_lem :
      (c names : List (List ℕ))
      → scan_pts fs c names
        ≡ c ++ map (λ name. sys_dir ++ name) (keep (λ name. not (is_dot name)) names)
  unfolding scan_pts
  scan_pts_lem c [] = rw append-nil
  scan_pts_lem c (name ∷ rest) = elim (Bool-cases (is_dot name)) [
    | inl dot ↦ rw dot (scan_pts_lem c rest)
    | inr entry ↦ rw entry (
        scan_pts_lem (push_back c (sys_dir ++ name)) rest
        ∙ append_assoc c ((sys_dir ++ name) ∷ []) _)
  ]

  -- Where the names of /sys/class/tty hold no slash, the list has first /dev/ and the name of each
  -- entry that has a driver other than serial8250, then those of serial8250 entries that open and
  -- have a known type, then each name of /dev/pts behind the prefix /sys/class/tty/; each part is
  -- in the directory's order, and each entry has its name only.
  pub get_available_serial_port_lem :
      Names (names_of fs sys_dir)
      → get_available_serial_port fs
        ≡ map
            (λ name. record name_desc_zero { name = name })
            ((map dev (keep is_plain (names_of fs sys_dir))
                ++ keep (probe fs) (map dev (keep is_8250 (names_of fs sys_dir))))
              ++ map
                  (λ name. sys_dir ++ name)
                  (keep (λ name. not (is_dot name)) (names_of fs pts_dir)))
  unfolding get_available_serial_port
  get_available_serial_port_lem h =
      rw
        (
          scan_sys_lem [] [] (names_of fs sys_dir) h,
          probe_lem (map dev (keep is_plain (names_of fs sys_dir)))
              (map dev (keep is_8250 (names_of fs sys_dir))),
          scan_pts_lem _ (names_of fs pts_dir),
        )
        refl
