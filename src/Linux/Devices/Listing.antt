-- ===== src/Linux/Devices/Listing.antt =====
-- src/serial_port_linux_base.cpp: `get_available_serial_port` with every call that it makes, and
-- the descriptors and memory blocks that it acquires and gives back. The strings and lists of C++
-- are values; that they cannot be allocated is left out.
pub mod Resources
pub mod Names
use lib_sp.Base.{
  ℕ, Bool, true, false, not, ◌&&◌, List, [], ◌∷◌, ◌++◌, ℤ, pos, eq_ℤ, is_negative, is_positive,
  ◌==◌, ltb, length, bytes_eq, codes, map, push_back, if◌then◌else◌,
}
use lib_sp.Effect
use lib_sp.Effect.{returned, blocked, pure, ◌>>=◌}
use lib_sp.Params.Props.{SpNameDesc, name_desc_zero}
use lib_sp.Linux.Devices.{sys_dir, pts_dir, port_unknown, basename, is_dot}

-- The calls; `call_free` has the address of the block, and `call_ioctl` asks for `TIOCGSERIAL`.
pub data Call : Type 0 where
  call_scandir : (path : List ℕ) → Call
  call_free : (block : ℕ) → Call
  call_lstat : (path : List ℕ) → Call
  call_readlink : (path : List ℕ) → Call
  call_open : (path : List ℕ) → Call
  call_ioctl : (fd : ℤ) → Call
  call_close : (fd : ℤ) → Call

-- A call and what it returned.
pub data Event : Type 0 where
  event : Call → ℤ → Event

-- What the system answers may depend on all calls before, the newest first. The fields after
-- `result` are what the newest call stored: the address of the array of `scandir`, and its entries,
-- which are as many as it returned, each with its address and name; whether `lstat` found a
-- symbolic link; the bytes that `readlink` put into the buffer; and the type of `TIOCGSERIAL`.
pub record System : Type 0 where
  pub result : List Event → Call → ℤ
  pub name_list : List Event → ℕ
  pub entries : List Event → List (ℕ × List ℕ)
  pub is_link : List Event → Bool
  pub target : List Event → List ℕ
  pub serial_type : List Event → ℕ

abbrev pub M : Type 0 → Type 0
M A = Effect.M (List Event) A

-- The size of the buffer that `readlink` fills, which is zeroed before.
abbrev pub buffer_size : ℕ
buffer_size = 1024

module _ (os : System) where
  abbrev pub invoke : Call → M ℤ
  invoke c t = let r = os.result t c in returned r (event c r ∷ t)

  -- What the newest call stored.
  abbrev pub stored : {A : Type 0} → (List Event → A) → M A
  stored get t = returned (get t) t

  -- `basename(buffer)`; a full buffer has no null character, and what is read behind it has no
  -- defined behaviour.
  abbrev pub basename_of : List ℕ → M (List ℕ)
  basename_of buffer t =
      if ltb (length buffer) buffer_size then returned (basename buffer) t else blocked t

  unfoldable pub get_driver : List ℕ → M (List ℕ)
  get_driver tty = do
    let devicedir = tty ++ codes "/device"
    r ← invoke (call_lstat devicedir)
    link ← stored os.is_link
    if eq_ℤ (pos 0) r && link
        then (do
          n ← invoke (call_readlink (devicedir ++ codes "/driver"))
          buffer ← stored os.target
          if is_positive n then basename_of buffer else pure [])
        else pure []

  -- The two lists `comList` and `comList8250` are passed on and returned.
  unfoldable pub register_comport :
      List (List ℕ) × List (List ℕ) → List ℕ → M (List (List ℕ) × List (List ℕ))
  unfolding get_driver
  register_comport (com_list, com_list_8250) dir = do
    driver ← get_driver dir
    let devfile = codes "/dev/" ++ basename dir
    pure (
        if ltb 0 (length driver)
        then (if bytes_eq driver (codes "serial8250")
            then (com_list, push_back com_list_8250 devfile)
            else (push_back com_list devfile, com_list_8250))
        else (com_list, com_list_8250))

  -- The body of the loop over the 8250 devices.
  unfoldable pub probe : List (List ℕ) → List ℕ → M (List (List ℕ))
  probe com_list it = do
    fd ← invoke (call_open it)
    if is_positive fd
        then (do
          r ← invoke (call_ioctl fd)
          serial_type ← stored os.serial_type
          _ ← invoke (call_close fd)
          pure (
              if eq_ℤ (pos 0) r && not (serial_type == port_unknown)
              then push_back com_list it
              else com_list))
        else pure com_list

  unfoldable pub probe_serial8250_comports : List (List ℕ) → List (List ℕ) → M (List (List ℕ))
  unfolding probe
  probe_serial8250_comports com_list [] = pure com_list
  probe_serial8250_comports com_list (it ∷ rest) = do
    probed ← probe com_list it
    probe_serial8250_comports probed rest

  -- The loop over the entries of a directory, each of which is freed after `visit`.
  unfoldable pub scan : {A : Type 0} → (A → List ℕ → M A) → A → List (ℕ × List ℕ) → M A
  scan visit a [] = pure a
  scan visit a (entry ∷ rest) = do
    b ← (if is_dot entry.1 then pure a else visit a entry.1)
    _ ← invoke (call_free entry.0)
    scan visit b rest

  -- `scandir`, the loop, and the end of the array. A directory that cannot be read is passed over.
  unfoldable pub scan_dir : {A : Type 0} → List ℕ → (A → List ℕ → M A) → A → M A
  unfolding scan
  scan_dir path visit a = do
    count ← invoke (call_scandir path)
    if is_negative count then pure a else (do
      name_list ← stored os.name_list
      entries ← stored os.entries
      b ← scan visit a entries
      _ ← invoke (call_free name_list)
      pure b)

  -- What the loop over /sys/class/tty does with a name.
  abbrev pub visit_sys : List (List ℕ) × List (List ℕ) → List ℕ → M (List (List ℕ) × List (List ℕ))
  visit_sys lists name = register_comport lists (sys_dir ++ name)

  -- The loop over /dev/pts puts the name behind the directory of the first loop.
  abbrev pub visit_pts : List (List ℕ) → List ℕ → M (List (List ℕ))
  visit_pts com_list name = pure (push_back com_list (sys_dir ++ name))

  unfoldable pub get_available_serial_port : M (List SpNameDesc)
  unfolding scan_dir register_comport probe_serial8250_comports
  get_available_serial_port = do
    lists ← scan_dir sys_dir visit_sys ([], [])
    probed ← probe_serial8250_comports lists.0 lists.1
    com_all ← scan_dir pts_dir visit_pts probed
    pure (map (λ name. record name_desc_zero { name = name }) com_all)
