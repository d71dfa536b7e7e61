-- ===== src/Tests/Devices.antt =====
-- A file system with three terminals and one pseudo terminal.
use lib_sp.Base.{
  ◌≡◌, refl, ℕ, some, List, [], ◌∷◌, ◌++◌, pos, bytes_eq, codes, not, if◌then◌else◌, map, keep,
  after_last, remove_first,
}
use lib_sp.Params.Props.{SpNameDesc, name_desc_zero}
use lib_sp.Linux.Devices.{
  DeviceFs, is_dot, names_of, pts_dir, sys_dir, get_available_serial_port, get_driver, scan_sys,
  scan_pts, register_comport, probe, probe_serial8250_comports,
}
use lib_sp.Effect.{Ends}
use lib_sp.Linux.Devices.Listing
use lib_sp.Linux.Devices.Listing.Resources.{
  Holds, BufferFull, held, descriptor, get_available_serial_port-Holds,
}
use lib_sp.Linux.Devices.Listing.Names.{system_of}
use lib_sp.Linux.Devices.Laws.{Names, dev, is_8250, is_plain, get_available_serial_port_lem}

abbrev pub desk : DeviceFs
desk = record {
  scandir = λ dir.
      if bytes_eq dir sys_dir
      then some (codes "." ∷ codes "ttyS0" ∷ codes "ttyUSB0" ∷ codes "tty1" ∷ [])
      else some (codes "0" ∷ []);
  is_link = λ path. not (bytes_eq path (sys_dir ++ codes "tty1/device"));
  readlink = λ path. some (
      if bytes_eq path (sys_dir ++ codes "ttyS0/device/driver")
      then codes "drivers/serial8250"
      else codes "drivers/ftdi_sio");
  open_tty = λ _. pos 4;
  serial_type = λ _. some 1;
}

abbrev zero_desk : DeviceFs
zero_desk = record desk { open_tty = λ _. pos 0 }

abbrev named : List ℕ → SpNameDesc
named name = record name_desc_zero { name = name }

desk_names :
    get_available_serial_port desk
    ≡ named (codes "/dev/ttyUSB0")
      ∷ named (codes "/dev/ttyS0")
      ∷ named (codes "/sys/class/tty/0")
      ∷ []
unfolding get_available_serial_port get_driver scan_sys scan_pts register_comport probe
    probe_serial8250_comports bytes_eq after_last
desk_names = refl

desk-Names : Names (names_of desk sys_dir)
unfolding bytes_eq
desk-Names = (
  (refl, tt),
  (
    (refl, (refl, (refl, (refl, (refl, tt))))),
    (
      (refl, (refl, (refl, (refl, (refl, (refl, (refl, tt))))))),
      ((refl, (refl, (refl, (refl, tt)))), tt),
    ),
  ),
)

get_available_serial_port_lem_example :
    get_available_serial_port desk
    ≡ map named (
        (map dev (keep (is_plain desk) (names_of desk sys_dir))
          ++ keep (probe desk) (map dev (keep (is_8250 desk) (names_of desk sys_dir))))
        ++ map (λ name. sys_dir ++ name) (keep (λ name. not (is_dot name)) (names_of desk pts_dir)))
get_available_serial_port_lem_example = get_available_serial_port_lem desk desk-Names

-- The same file system, answering each call.
get_available_serial_port-Holds_example :
    Ends
      (λ _. Holds (system_of desk) [])
      (BufferFull (system_of desk))
      (Listing.get_available_serial_port (system_of desk) [])
get_available_serial_port-Holds_example = get_available_serial_port-Holds (system_of desk)

-- Where `open` gives the descriptor 0 it is left open.
zero_left :
    Ends
      (λ _ u. held (system_of zero_desk) u ≡ some (descriptor (pos 0) ∷ []))
      (λ _. ⊥)
      (Listing.get_available_serial_port (system_of zero_desk) [])
unfolding Listing.get_available_serial_port Listing.get_driver Listing.scan_dir Listing.scan
    Listing.register_comport Listing.probe Listing.probe_serial8250_comports bytes_eq after_last
    held remove_first
zero_left = refl
