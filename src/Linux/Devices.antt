-- ===== src/Linux/Devices.antt =====
-- src/serial_port_linux_base.cpp: `get_available_serial_port`. What the file system and the devices
-- answer is a parameter; Listing has every call, with the descriptors and the memory blocks.
pub mod Laws
pub mod Listing
use lib_sp.Base.{
  push_back, ℕ, Bool, not, ◌&&◌, ◌||◌, Option, none, some, List, [], ◌∷◌, ◌++◌, ℤ, pos, is_positive,
  ◌==◌, bytes_eq, ltb, length, false, codes, after_last, if◌then◌else◌, map,
}
use lib_sp.Params.Props.{SpNameDesc, name_desc_zero}

-- `scandir` gives the names of a directory, or `none` where it fails; `is_link` is a successful
-- `lstat` of a symbolic link; `readlink` gives the target, or `none` where it stores nothing;
-- `open_tty` is the result of `open`, and `serial_type` the device type that `TIOCGSERIAL` stores.
pub record DeviceFs : Type 0 where
  pub scandir : List ℕ → Option (List (List ℕ))
  pub is_link : List ℕ → Bool
  pub readlink : List ℕ → Option (List ℕ)
  pub open_tty : List ℕ → ℤ
  pub serial_type : ℤ → Option ℕ

abbrev pub sys_dir : List ℕ
sys_dir = codes "/sys/class/tty/"

abbrev pub pts_dir : List ℕ
pts_dir = codes "/dev/pts/"

abbrev pub port_unknown : ℕ
port_unknown = 0

-- The `basename` of <string.h>: what follows the last slash.
abbrev pub basename : List ℕ → List ℕ
basename s = after_last b'/' s s

-- A directory's entries for itself and its parent: `strcmp(..) && strcmp(..)` is 0.
abbrev pub is_dot : List ℕ → Bool
is_dot name = bytes_eq (codes "..") name || bytes_eq (codes ".") name

module _ (fs : DeviceFs) where
  -- The name of the driver that a device uses, empty if there is none.
  unfoldable pub get_driver : List ℕ → List ℕ
  get_driver tty =
      let devicedir = tty ++ codes "/device" in
      if fs.is_link devicedir
      then (elim (fs.readlink (devicedir ++ codes "/driver")) [
        | none ↦ []
        | some buffer ↦ basename buffer
      ])
      else []

  -- The two lists `comList` and `comList8250` are passed on and returned.
  unfoldable pub register_comport :
      List (List ℕ) × List (List ℕ) → List ℕ → List (List ℕ) × List (List ℕ)
  register_comport (com_list, com_list_8250) dir =
      let driver = get_driver dir in
      let devfile = codes "/dev/" ++ basename dir in
      if ltb 0 (length driver)
      then (if bytes_eq driver (codes "serial8250")
          then (com_list, push_back com_list_8250 devfile)
          else (push_back com_list devfile, com_list_8250))
      else (com_list, com_list_8250)

  -- The device can be opened, and it has a known type.
  unfoldable pub probe : List ℕ → Bool
  probe path =
      let fd = fs.open_tty path in
      is_positive fd && elim (fs.serial_type fd) [ none ↦ false | some t ↦ not (t == port_unknown) ]

  unfoldable pub probe_serial8250_comports : List (List ℕ) → List (List ℕ) → List (List ℕ)
  probe_serial8250_comports com_list [] = com_list
  probe_serial8250_comports com_list (it ∷ rest) =
      probe_serial8250_comports (if probe it then push_back com_list it else com_list) rest

  -- The loop over /sys/class/tty.
  unfoldable pub scan_sys :
      List (List ℕ) × List (List ℕ) → List (List ℕ) → List (List ℕ) × List (List ℕ)
  scan_sys lists [] = lists
  scan_sys lists (name ∷ rest) =
      scan_sys (if is_dot name then lists else register_comport lists (sys_dir ++ name)) rest

  -- The loop over /dev/pts, which puts the name behind the directory of the first loop.
  unfoldable pub scan_pts : List (List ℕ) → List (List ℕ) → List (List ℕ)
  scan_pts com_list [] = com_list
  scan_pts com_list (name ∷ rest) =
      scan_pts (if is_dot name then com_list else push_back com_list (sys_dir ++ name)) rest

  -- A directory that cannot be read counts as empty.
  abbrev pub names_of : List ℕ → List (List ℕ)
  names_of dir = elim (fs.scandir dir) [ none ↦ [] | some names ↦ names ]

  unfoldable pub get_available_serial_port : List SpNameDesc
  get_available_serial_port =
      let (com_list, com_list_8250) = scan_sys ([], []) (names_of sys_dir) in
      let probed = probe_serial8250_comports com_list com_list_8250 in
      let com_all = scan_pts probed (names_of pts_dir) in
      map (λ name. record name_desc_zero { name = name }) com_all
