-- ===== src/Win/Devices/Listing/Resources.antt =====
-- Which resources the listing holds.
use lib_sp.Base.{
  ℕ, zero, suc, ◌+◌, ◌<◌, ◌≤◌, Bool, true, false, Option, none, some, List, [], ◌∷◌, ◌==◌, ◌≡◌, ◌⊎◌,
  inl, inr, refl, arith, if◌then◌else◌, Bool-cases, remove_first, remove_first_head,
}
use mathlib.Core.Option
use lib_sp.Params.Props.{SpNameDesc}
use lib_sp.Win.State.{invalid_handle_value}
use lib_sp.Win.Devices.Listing.{
  get_class_devs, new_detail, enum_interfaces, open_dev_reg_key, close_key, delete_detail,
  destroy_info_list, Event, event, System, Outcome, ended, threw, unfinished, Round, goes_on, stops,
  breaks, round, rounds, read_port_name, try_block, caught, after_round, pure, invoke, ◌>>=◌,
  get_available_serial_port,
}

pub data Resource : Type 0 where
  info_list buffer key : ℕ → Resource

abbrev same : Resource → Resource → Bool
same (info_list a) (info_list b) = a == b
same (buffer a) (buffer b) = a == b
same (key a) (key b) = a == b
same _ _ = false

abbrev and_give_back : Resource → Option (List Resource) → Option (List Resource)
and_give_back r none = none
and_give_back r (some rs) = remove_first (same r) rs

abbrev and_acquire : Resource → Option (List Resource) → Option (List Resource)
and_acquire r = Option.map (λ rs. r ∷ rs)

-- The resources that are held after the calls of a trace, the newest first; `none` where one was
-- given back that was not held.
unfoldable pub held : List Event → Option (List Resource)
held [] = some []
held (event get_class_devs r ∷ t) =
    if invalid_handle_value == r then held t else and_acquire (info_list r) (held t)
held (event new_detail r ∷ t) = if r == 0 then held t else and_acquire (buffer r) (held t)
held (event (open_dev_reg_key h index) r ∷ t) =
    if invalid_handle_value == r then held t else and_acquire (key r) (held t)
held (event (close_key k) r ∷ t) = and_give_back (key k) (held t)
held (event (delete_detail p) r ∷ t) = if p == 0 then held t else and_give_back (buffer p) (held t)
held (event (destroy_info_list h) r ∷ t) = and_give_back (info_list h) (held t)
held (event c r ∷ t) = held t

give_back_newest : (r : Resource) (rs : List Resource) → and_give_back r (some (r ∷ rs)) ≡ some rs
give_back_newest (info_list a) rs =
    remove_first_head (same (info_list a)) (info_list a) rs (ground arith)
give_back_newest (buffer a) rs = remove_first_head (same (buffer a)) (buffer a) rs (ground arith)
give_back_newest (key a) rs = remove_first_head (same (key a)) (key a) rs (ground arith)

-- What a round holds where it ends; the loop is left by `break` without the buffer.
abbrev RoundHolds : System → ℕ → List Resource → Outcome Round → Type 0
RoundHolds os p rs (ended (goes_on l) u) = held u ≡ some (buffer p ∷ rs)
RoundHolds os p rs (ended (stops l) u) = held u ≡ some (buffer p ∷ rs)
RoundHolds os p rs (ended (breaks l) u) = held u ≡ some rs
RoundHolds os p rs (threw u) = (os.throws u ≡ true) × (held u ≡ some (buffer p ∷ rs))
RoundHolds os p rs unfinished = ⊥

-- All is given back, or the list is left by an exception with the buffer.
abbrev LoopHolds : System → ℕ → List Resource → Outcome (List SpNameDesc) → Type 0
LoopHolds os p rs (ended l u) = held u ≡ some rs
LoopHolds os p rs (threw u) = (os.throws u ≡ true) × (held u ≡ some (buffer p ∷ rs))
LoopHolds os p rs unfinished = ⊥

module _ (os : System) where
  read_port_name-RoundHolds :
      (h p i : ℕ) (d : List ℕ) (l : List SpNameDesc) (rs : List Resource) (t : List Event)
      → held t ≡ some (buffer p ∷ rs)
      → RoundHolds os p rs (read_port_name os h i d l t)
  unfolding read_port_name held
  read_port_name-RoundHolds h p i d l rs t e =
      ground (arith, give_back_newest (key (os.result t (open_dev_reg_key h i))) (buffer p ∷ rs))

  round-RoundHolds :
      (h p i : ℕ) (l : List SpNameDesc) (rs : List Resource) (t : List Event)
      → p == 0 ≡ false
      → held t ≡ some (buffer p ∷ rs)
      → RoundHolds os p rs (round os h p i l t)
  unfolding round held
  round-RoundHolds h p i l rs t z e = grind (arith, give_back_newest, read_port_name-RoundHolds)

  -- The rule for a round and what follows it.
  after_round-LoopHolds :
      (p : ℕ) (rs : List Resource) (next : List SpNameDesc → List Event → Outcome (List SpNameDesc))
      (o : Outcome Round)
      → p == 0 ≡ false
      → RoundHolds os p rs o
      → ((l : List SpNameDesc) (u : List Event)
          → o ≡ ended (goes_on l) u
          → held u ≡ some (buffer p ∷ rs)
          → LoopHolds os p rs (next l u))
      → LoopHolds os p rs (after_round os p next o)
  unfolding held
  after_round-LoopHolds p rs next (ended (goes_on l) u) z h k = k l u refl h
  after_round-LoopHolds p rs next (ended (stops l) u) z h k =
      ground (arith, give_back_newest (buffer p) rs)
  after_round-LoopHolds p rs next (ended (breaks l) u) z h k = h
  after_round-LoopHolds p rs next (threw u) z h k = h
  after_round-LoopHolds p rs next unfinished z h k = h

  -- `SetupDiEnumDeviceInterfaces` fails at the index `n`.
  abbrev pub EndsAt : ℕ → Type 0
  EndsAt n = (t : List Event) (h : ℕ) → os.result t (enum_interfaces h n) ≡ 0

  goes_past :
      (h p i n : ℕ) (l m : List SpNameDesc) (t u : List Event)
      → EndsAt n
      → round os h p i l t ≡ ended (goes_on m) u
      → i ≤ n
      → suc i ≤ n
  unfolding round
  goes_past h p i n l m t u e q below = ground (arith, e t h)

  rounds-LoopHolds :
      (fuel h p i n : ℕ) (l : List SpNameDesc) (rs : List Resource) (t : List Event)
      → p == 0 ≡ false
      → EndsAt n
      → i ≤ n
      → n < i + fuel
      → held t ≡ some (buffer p ∷ rs)
      → LoopHolds os p rs (rounds os fuel h p i l t)
  unfolding rounds
  rounds-LoopHolds zero h p i n l rs t z e below within k = omega arith
  rounds-LoopHolds (suc fuel) h p i n l rs t z e below within k =
      after_round-LoopHolds p rs (rounds os fuel h p (suc i)) (round os h p i l t) z
        (round-RoundHolds h p i l rs t z k)
        (λ m u q hu.
          rounds-LoopHolds fuel h p (suc i) n m rs u z e (goes_past h p i n l m t u e q below)
            (omega arith) hu)

  -- All that was acquired has been given back; or a copy threw, the list is empty, and the list of
  -- devices and the buffer are still held.
  abbrev pub Released : List Resource → Outcome (List SpNameDesc) → Type 0
  Released rs (ended l u) =
      (held u ≡ some rs)
      ⊎ ((os.throws u ≡ true)
          × (l ≡ [])
          × ((p : ℕ) × (h : ℕ) × (held u ≡ some (buffer p ∷ info_list h ∷ rs))))
  Released rs _ = ⊥

  -- What follows the loop in the `try` block.
  abbrev destroy_after : ℕ → Outcome (List SpNameDesc) → Outcome (List SpNameDesc)
  destroy_after h o = ((λ _. o) >>= (λ l. (do _ ← invoke os (destroy_info_list h); pure l))) []

  destroy_after-Released :
      (p h : ℕ) (rs : List Resource) (o : Outcome (List SpNameDesc))
      → LoopHolds os p (info_list h ∷ rs) o
      → Released rs (caught os (destroy_after h o))
  unfolding held
  destroy_after-Released p h rs (ended l u) k = inl (rw k (give_back_newest (info_list h) rs))
  destroy_after-Released p h rs (threw u) k = inr (k.0, refl, (p, h, k.1))
  destroy_after-Released p h rs unfinished k = k

  -- Where the enumeration of the devices ends, so does the listing, also where a copy throws. Then
  -- every list of devices, buffer and registry key that it has acquired was given back once and
  -- nothing else was; or a copy has thrown, the result is the empty list, and the list of devices
  -- and the buffer are left behind.
  pub get_available_serial_port-Released :
      (n fuel : ℕ) (rs : List Resource) (t : List Event)
      → EndsAt n
      → n < fuel
      → held t ≡ some rs
      → Released rs (get_available_serial_port os fuel t)
  unfolding get_available_serial_port try_block held
  get_available_serial_port-Released n fuel rs t e within k =
      let h = os.result t get_class_devs in
      let t1 = event get_class_devs h ∷ t in
      let p = os.result t1 new_detail in
      elim (Bool-cases (invalid_handle_value == h)) [
        | inl none_given ↦ rw none_given (inl (ground (arith, none_given, k)))
        | inr c ↦ elim (Bool-cases (p == 0)) [
          | inl no_memory ↦
              rw (c, no_memory)
                (inl (ground (arith, c, no_memory, k, give_back_newest (info_list h) rs)))
          | inr m ↦
              rw (c, m)
                (destroy_after-Released p h rs (rounds os fuel h p 0 [] (event new_detail p ∷ t1)) (
                  rounds-LoopHolds fuel h p 0 n [] (info_list h ∷ rs) (event new_detail p ∷ t1) m e
                    (omega arith) (omega arith) (ground (arith, c, m, k))))
        ]
      ]
