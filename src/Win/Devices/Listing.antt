-- ===== src/Win/Devices/Listing.antt =====
-- src/serial_port_win_base.cpp: `get_available_serial_port` with every call that it makes, the
-- resources that it acquires and gives back, and the exception that it catches.
pub mod Resources
pub mod Names
use lib_sp.Base.{
  ℕ, zero, suc, Bool, true, false, not, List, [], ◌∷◌, ◌==◌, if◌then◌else◌, push_back,
}
use lib_sp.Params.Props.{SpNameDesc}
use lib_sp.Win.State.{invalid_handle_value}

-- The calls. An index stands for what `SetupDiEnumDeviceInterfaces` stores about that device.
pub data Call : Type 0 where
  get_class_devs : Call
  new_detail : Call
  enum_interfaces : (hdev_info index : ℕ) → Call
  get_detail : (hdev_info index pdev_data : ℕ) → Call
  get_friendly_name : (hdev_info index : ℕ) → Call
  open_dev_reg_key : (hdev_info index : ℕ) → Call
  query_port_name : (key_dev index : ℕ) → Call
  close_key : (key_dev : ℕ) → Call
  delete_detail : (pdev_data : ℕ) → Call
  destroy_info_list : (hdev_info : ℕ) → Call

-- A call and what it returned; a failing `BOOL` and a null pointer are 0.
pub data Event : Type 0 where
  event : Call → ℕ → Event

-- What the system answers may depend on all calls before, the newest first: the result of a call,
-- the name that the newest one stored, and whether the copies of the two names or the list's new
-- element throw.
pub record System : Type 0 where
  pub result : List Event → Call → ℕ
  pub stored : List Event → List ℕ
  pub throws : List Event → Bool

-- A part of the function ends, or an exception leaves it, or it was not followed to its end.
pub data Outcome (A : Type 0) : Type 0 where
  ended : A → List Event → Outcome A
  threw : List Event → Outcome A
  unfinished : Outcome A

abbrev pub M : Type 0 → Type 0
M A = List Event → Outcome A

abbrev pub pure : {A : Type 0} → A → M A
pure a t = ended a t

infixl 5 ◌>>=◌
abbrev pub ◌>>=◌ : {A B : Type 0} → M A → (A → M B) → M B
◌>>=◌ m f t = elim (m t) [ ended a u ↦ f a u | threw u ↦ threw u | unfinished ↦ unfinished ]

-- How a round of the loop ends: the loop goes on, its condition is false, or it is left by `break`
-- after the buffer was freed.
pub data Round : Type 0 where
  goes_on : List SpNameDesc → Round
  stops : List SpNameDesc → Round
  breaks : List SpNameDesc → Round

module _ (os : System) where
  abbrev pub invoke : Call → M ℕ
  invoke c t = let r = os.result t c in ended r (event c r ∷ t)

  abbrev pub get_stored : M (List ℕ)
  get_stored t = ended (os.stored t) t

  -- The item is made and put at the end of the list.
  abbrev pub push_item : SpNameDesc → List SpNameDesc → M Round
  push_item sp_info_item list_sp t =
      if os.throws t then threw t else ended (goes_on (push_back list_sp sp_info_item)) t

  -- From `SetupDiOpenDevRegKey` on.
  unfoldable pub read_port_name : ℕ → ℕ → List ℕ → List SpNameDesc → M Round
  read_port_name hdev_info index str_description list_sp = do
    key_dev ← invoke (open_dev_reg_key hdev_info index)
    if invalid_handle_value == key_dev then pure (stops list_sp) else (do
      _ ← invoke (query_port_name key_dev index)
      str_port_name ← get_stored
      _ ← invoke (close_key key_dev)
      push_item (record { name = str_port_name; description = str_description }) list_sp)

  -- The body of the loop.
  unfoldable pub round : ℕ → ℕ → ℕ → List SpNameDesc → M Round
  unfolding read_port_name
  round hdev_info pdev_data index list_sp = do
    found ← invoke (enum_interfaces hdev_info index)
    if found == 0 then pure (stops list_sp) else (do
      detail ← invoke (get_detail hdev_info index pdev_data)
      if detail == 0 then (do _ ← invoke (delete_detail pdev_data); pure (breaks list_sp)) else (do
        named ← invoke (get_friendly_name hdev_info index)
        str_description ← get_stored
        if named == 0
            then pure (stops list_sp)
            else read_port_name hdev_info index str_description list_sp))

  -- What follows a round: the next, or the `delete` after the loop, which has the null pointer
  -- after `break`.
  abbrev pub after_round :
      ℕ → (List SpNameDesc → M (List SpNameDesc)) → Outcome Round → Outcome (List SpNameDesc)
  after_round pdev_data next (ended (goes_on l) u) = next l u
  after_round pdev_data next (ended (stops l) u) =
      (do _ ← invoke (delete_detail pdev_data); pure l) u
  after_round pdev_data next (ended (breaks l) u) = (do _ ← invoke (delete_detail 0); pure l) u
  after_round pdev_data next (threw u) = threw u
  after_round pdev_data next unfinished = unfinished

  -- The loop, followed for at most `fuel` rounds.
  unfoldable pub rounds : ℕ → ℕ → ℕ → ℕ → List SpNameDesc → M (List SpNameDesc)
  unfolding round
  rounds zero hdev_info pdev_data index list_sp t = unfinished
  rounds (suc fuel) hdev_info pdev_data index list_sp t =
      after_round pdev_data (rounds fuel hdev_info pdev_data (suc index))
        (round hdev_info pdev_data index list_sp t)

  -- The `try` block.
  unfoldable pub try_block : ℕ → M (List SpNameDesc)
  unfolding rounds
  try_block fuel = do
    hdev_info ← invoke get_class_devs
    if invalid_handle_value == hdev_info then pure [] else (do
      pdev_data ← invoke new_detail
      list_sp ← (if pdev_data == 0 then pure [] else rounds fuel hdev_info pdev_data 0 [])
      _ ← invoke (destroy_info_list hdev_info)
      pure list_sp)

  -- `catch (...)` clears the list.
  abbrev pub caught : Outcome (List SpNameDesc) → Outcome (List SpNameDesc)
  caught (ended l t) = ended l t
  caught (threw t) = ended [] t
  caught unfinished = unfinished

  unfoldable pub get_available_serial_port : ℕ → M (List SpNameDesc)
  unfolding try_block
  get_available_serial_port fuel t = caught (try_block fuel t)
