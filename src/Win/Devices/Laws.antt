-- ===== src/Win/Devices/Laws.antt =====
-- That the listing comes to its end, and what it lists.
use mathlib.Core.List.{append_assoc, append-nil}
use lib_sp.Base.{
  push_back, ℕ, zero, suc, ◌+◌, ◌<◌, ◌≤◌, true, false, none, some, Option-cases, List, [], ◌∷◌,
  ◌++◌, ◌≡◌, sym, ap, ◌∙◌, inl, inr, arith,
}
use lib_sp.Params.Props.{SpNameDesc}
use lib_sp.Win.Devices.{SetupApi, read_device, read_devices, get_available_serial_port}

module _ (api : SetupApi) where
  -- The devices from index `i` on up to the first that a call refuses, which is not among them.
  abbrev pub UpToRefusal : ℕ → List SpNameDesc → Type 0
  UpToRefusal i [] = read_device api i ≡ none
  UpToRefusal i (d ∷ ds) = (read_device api i ≡ some d) × UpToRefusal (suc i) ds

  read_devices_stop :
      (fuel i : ℕ) (acc : List SpNameDesc)
      → read_device api i ≡ none
      → read_devices api (suc fuel) i acc ≡ some acc
  unfolding read_devices
  read_devices_stop fuel i acc h = ground arith

  read_devices_next :
      (fuel i : ℕ) (acc : List SpNameDesc) (d : SpNameDesc)
      → read_device api i ≡ some d
      → read_devices api (suc fuel) i acc ≡ read_devices api fuel (suc i) (push_back acc d)
  unfolding read_devices
  read_devices_next fuel i acc d h = ground arith

  passed :
      (i n : ℕ) (d : SpNameDesc)
      → read_device api n ≡ none
      → read_device api i ≡ some d
      → i ≤ n
      → suc i ≤ n
  passed i n d e found l = ground arith

  read_devices-ends :
      (fuel i n : ℕ) (acc : List SpNameDesc)
      → read_device api n ≡ none
      → i ≤ n
      → n < i + fuel
      → (ds : List SpNameDesc) × (read_devices api fuel i acc ≡ some (acc ++ ds)) × UpToRefusal i ds
  read_devices-ends zero i n acc e l h = ground arith
  read_devices-ends (suc fuel) i n acc e l h = elim (Option-cases (read_device api i)) [
    | inl stop ↦ ([], read_devices_stop fuel i acc stop ∙ ap some (sym (append-nil acc)), stop)
    | inr (d, found) ↦
        let (ds, q, u) =
          read_devices-ends fuel (suc i) n (push_back acc d) e (passed i n d e found l)
            (omega arith) in
        (
          d ∷ ds,
          read_devices_next fuel i acc d found ∙ q ∙ ap some (append_assoc acc (d ∷ []) ds),
          (found, u),
        )
  ]

  read_device_refused : (n : ℕ) → api.has_interface n ≡ false → read_device api n ≡ none
  unfolding read_device
  read_device_refused n h = ground arith

  listing :
      (fuel : ℕ)
      → api.class_devs ≡ true
      → get_available_serial_port api true fuel ≡ read_devices api fuel 0 []
  unfolding get_available_serial_port
  listing fuel h = ground arith

  -- Where `SetupDiEnumDeviceInterfaces` fails at some index `n`, the loop ends within `n` + 1
  -- rounds; the list has the devices from the first on, in order, up to the first device that
  -- one of the calls refuses.
  pub get_available_serial_port-ends :
      (n fuel : ℕ)
      → api.class_devs ≡ true
      → api.has_interface n ≡ false
      → n < fuel
      → (ds : List SpNameDesc) × (get_available_serial_port api true fuel ≡ some ds)
        × UpToRefusal 0 ds
  get_available_serial_port-ends n fuel c h l =
      let (ds, q, u) =
        read_devices-ends fuel 0 n [] (read_device_refused n h) (omega arith) (omega arith) in
      (ds, listing fuel c ∙ q, u)
