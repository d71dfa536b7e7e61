-- ===== src/Win/Devices.antt =====
-- src/serial_port_win_base.cpp: `get_available_serial_port` as a loop over the devices. The SetupAPI
-- is a parameter; Listing has every call, with the buffers and the handles.
pub mod Laws
pub mod Listing
use lib_sp.Base.{push_back, ℕ, zero, suc, Bool, true, false, Option, none, some, List, [], ◌∷◌}
use lib_sp.Params.Props.{SpNameDesc}

-- `class_devs` tells whether `SetupDiGetClassDevs` gives a handle, `has_interface` whether the
-- device at an index is found by `SetupDiEnumDeviceInterfaces`, `has_detail` the same for its
-- details. `friendly_name` is `none` where the property cannot be read, and `port_name` where the
-- registry key cannot be opened; a value that cannot be queried is empty. Names are as converted by
-- `wstr2str`.
pub record SetupApi : Type 0 where
  pub class_devs : Bool
  pub has_interface : ℕ → Bool
  pub has_detail : ℕ → Bool
  pub friendly_name : ℕ → Option (List ℕ)
  pub port_name : ℕ → Option (List ℕ)

module _ (api : SetupApi) where
  -- The body of the loop: a device to be listed, or `none` where the loop is left.
  unfoldable pub read_device : ℕ → Option SpNameDesc
  read_device index = elim (api.has_interface index) [
    | false ↦ none
    | true ↦ elim (api.has_detail index) [
      | false ↦ none
      | true ↦ elim (api.friendly_name index) [
        | none ↦ none
        | some str_description ↦ elim (api.port_name index) [
          | none ↦ none
          | some str_port_name ↦
              some (record { name = str_port_name; description = str_description })
        ]
      ]
    ]
  ]

  -- The loop, followed for at most `fuel` rounds; `none` where it has not ended by then. The list
  -- is built up at its end.
  unfoldable pub read_devices : ℕ → ℕ → List SpNameDesc → Option (List SpNameDesc)
  unfolding read_device
  read_devices zero index list_sp = none
  read_devices (suc fuel) index list_sp = elim (read_device index) [
    | none ↦ some list_sp
    | some sp_info_item ↦ read_devices fuel (suc index) (push_back list_sp sp_info_item)
  ]

  unfoldable pub get_available_serial_port : Bool → ℕ → Option (List SpNameDesc)
  unfolding read_devices
  get_available_serial_port has_memory fuel = elim api.class_devs [
    | false ↦ some []
    | true ↦ elim has_memory [ false ↦ some [] | true ↦ read_devices fuel 0 [] ]
  ]
