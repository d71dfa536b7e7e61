-- ===== src/Win/Devices/Listing/Names.antt =====
-- The traced listing against the plain one of Win.Devices.
use mathlib.Core.Option
use lib_sp.Base.{
  ℕ, zero, suc, Bool, true, false, Option, none, some, List, [], ◌∷◌, ◌≡◌, refl, sym, ap, ◌∙◌,
  arith, Option-cases, Bool-cases, inl, inr, push_back,
}
use lib_sp.Params.Props.{SpNameDesc}
use lib_sp.Win.State.{invalid_handle_value}
use lib_sp.Win.Devices
use lib_sp.Win.Devices.{SetupApi, read_device, read_devices}
use lib_sp.Win.Devices.Listing.{
  get_class_devs, new_detail, enum_interfaces, get_detail, get_friendly_name, open_dev_reg_key,
  query_port_name, close_key, delete_detail, destroy_info_list, Event, event, System, Outcome,
  ended, threw, unfinished, Round, goes_on, stops, breaks, round, rounds, read_port_name, try_block,
  caught, after_round, pure, invoke, ◌>>=◌, get_available_serial_port,
}

abbrev as_bool : Bool → ℕ
as_bool true = 1
as_bool false = 0

abbrev as_handle : Bool → ℕ
as_handle true = 5
as_handle false = invalid_handle_value

abbrev is_some : {A : Type 0} → Option A → Bool
is_some none = false
is_some (some a) = true

abbrev or_empty : Option (List ℕ) → List ℕ
or_empty none = []
or_empty (some s) = s

-- The name that the newest call stores.
abbrev stored_by : SetupApi → List Event → List ℕ
stored_by api [] = []
stored_by api (event (get_friendly_name h index) r ∷ t) = or_empty (api.friendly_name index)
stored_by api (event (query_port_name k index) r ∷ t) = or_empty (api.port_name index)
stored_by api (event c r ∷ t) = []

-- A system that answers by the index only, and on which nothing throws.
abbrev pub system_of : SetupApi → Bool → System
system_of api has_memory = record {
  result = λ t c. elim c [
    | get_class_devs ↦ as_handle api.class_devs
    | new_detail ↦ as_bool has_memory
    | enum_interfaces h index ↦ as_bool (api.has_interface index)
    | get_detail h index p ↦ as_bool (api.has_detail index)
    | get_friendly_name h index ↦ as_bool (is_some (api.friendly_name index))
    | open_dev_reg_key h index ↦ as_handle (is_some (api.port_name index))
    | query_port_name k index ↦ 0
    | close_key k ↦ 0
    | delete_detail p ↦ 0
    | destroy_info_list h ↦ 1
  ];
  stored = stored_by api;
  throws = λ _. false;
}

-- A round goes on with the device that `read_device` gives, and ends the loop where it gives none.
abbrev RoundReads : SetupApi → ℕ → List SpNameDesc → Outcome Round → Type 0
RoundReads api i l (ended (goes_on m) u) = Option.map (push_back l) (read_device api i) ≡ some m
RoundReads api i l (ended (stops m) u) = (read_device api i ≡ none) × (m ≡ l)
RoundReads api i l (ended (breaks m) u) = (read_device api i ≡ none) × (m ≡ l)
RoundReads api i l _ = ⊥

-- The list, empty after an exception, or `none` where the function was not followed to its end.
abbrev pub value : Outcome (List SpNameDesc) → Option (List SpNameDesc)
value (ended l u) = some l
value (threw u) = some []
value unfinished = none

module _ (api : SetupApi) (has_memory : Bool) where
  round-RoundReads :
      (h p i : ℕ) (l : List SpNameDesc) (t : List Event)
      → RoundReads api i l (round (system_of api has_memory) h p i l t)
  unfolding round read_port_name read_device
  round-RoundReads h p i l t = elim (Option-cases (api.friendly_name i)) [
    | inl a ↦ grind arith
    | inr (d, a) ↦ elim (Option-cases (api.port_name i)) [
      | inl b ↦ grind arith
      | inr (n, b) ↦ grind arith
    ]
  ]

  read_devices_step :
      (fuel i : ℕ) (l m : List SpNameDesc)
      → Option.map (push_back l) (read_device api i) ≡ some m
      → read_devices api (suc fuel) i l ≡ read_devices api fuel (suc i) m
  unfolding read_devices
  read_devices_step fuel i l m h = elim (Option-cases (read_device api i)) [
    | inl e ↦ ground (arith, h, e)
    | inr (d, e) ↦ ground (arith, h, e)
  ]

  read_devices_stop :
      (fuel i : ℕ) (l : List SpNameDesc)
      → read_device api i ≡ none
      → read_devices api (suc fuel) i l ≡ some l
  unfolding read_devices
  read_devices_stop fuel i l h = ground arith

  after_round-value :
      (fuel p i : ℕ) (l : List SpNameDesc)
      (next : List SpNameDesc → List Event → Outcome (List SpNameDesc)) (o : Outcome Round)
      → RoundReads api i l o
      → ((m : List SpNameDesc) (u : List Event)
          → value (next m u) ≡ read_devices api fuel (suc i) m)
      → value (after_round (system_of api has_memory) p next o) ≡ read_devices api (suc fuel) i l
  after_round-value fuel p i l next (ended (goes_on m) u) h k =
      k m u ∙ sym (read_devices_step fuel i l m h)
  after_round-value fuel p i l next (ended (stops m) u) h k =
      ap some h.1 ∙ sym (read_devices_stop fuel i l h.0)
  after_round-value fuel p i l next (ended (breaks m) u) h k =
      ap some h.1 ∙ sym (read_devices_stop fuel i l h.0)
  after_round-value fuel p i l next (threw u) h k = elim h [ ]
  after_round-value fuel p i l next unfinished h k = elim h [ ]

  rounds-value :
      (fuel h p i : ℕ) (l : List SpNameDesc) (t : List Event)
      → value (rounds (system_of api has_memory) fuel h p i l t) ≡ read_devices api fuel i l
  unfolding rounds read_devices
  rounds-value zero h p i l t = refl
  rounds-value (suc fuel) h p i l t =
      after_round-value fuel p i l (rounds (system_of api has_memory) fuel h p (suc i)) _
        (round-RoundReads h p i l t) (λ m u. rounds-value fuel h p (suc i) m u)

  destroy_after-value :
      (h : ℕ) (o : Outcome (List SpNameDesc))
      → value (
          caught (system_of api has_memory) (
            ((λ _. o)
                >>= (λ l. (do _ ← invoke (system_of api has_memory) (destroy_info_list h); pure l)))
              []))
        ≡ value o
  destroy_after-value h (ended l u) = refl
  destroy_after-value h (threw u) = refl
  destroy_after-value h unfinished = refl

-- On a system whose answers depend on the device's index only, and on which nothing throws, the
-- listing with all its calls gives what the plain loop over the devices gives, for as many rounds
-- as it is followed.
pub get_available_serial_port-value :
    (api : SetupApi) (has_memory : Bool) (fuel : ℕ) (t : List Event)
    → value (get_available_serial_port (system_of api has_memory) fuel t)
      ≡ Devices.get_available_serial_port api has_memory fuel
unfolding get_available_serial_port try_block Devices.get_available_serial_port
get_available_serial_port-value api true fuel t = elim (Bool-cases api.class_devs) [
  | inl c ↦ rw c (
      destroy_after-value api true _ (rounds (system_of api true) fuel _ 1 0 [] _)
      ∙ rounds-value api true fuel _ 1 0 [] _)
  | inr c ↦ rw c refl
]
get_available_serial_port-value api false fuel t = elim (Bool-cases api.class_devs) [
  | inl c ↦ rw c refl
  | inr c ↦ rw c refl
]
