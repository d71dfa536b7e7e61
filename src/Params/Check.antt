-- ===== src/Params/Check.antt =====
-- src/serial_port_params.cpp: the tables of known values and the check of a property set.
pub mod Verdicts
use lib_sp.Base.{
  ℕ, List, [], ◌∷◌, Option, none, some, ℤ, pos, minus, eq_ℤ, not, ◌==◌, if◌then◌else◌, length,
}
use lib_sp.Params.Enums.{
  baud_rate_110, baud_rate_300, baud_rate_600, baud_rate_1200, baud_rate_2400, baud_rate_4800,
  baud_rate_9600, baud_rate_14400, baud_rate_19200, baud_rate_38400, baud_rate_56000,
  baud_rate_57600, baud_rate_115200, baud_rate_921600, stop_1, stop_1_5, stop_2, flow_ctl_none,
  flow_ctl_hardware, flow_ctl_software, parity_none, parity_odd, parity_even, parity_mark,
  parity_space, data_bits_5, data_bits_6, data_bits_7, data_bits_8,
}
use lib_sp.Params.Props.{Platform, os_is_win, os_is_linux, SpProp}

-- `std::map<int, int>`. `insert` leaves a key that is there alone.
abbrev pub MapType : Type 0
MapType = List (ℕ × ℕ)

unfoldable pub find : MapType → ℕ → Option ℕ
find [] k = none
find ((j, v) ∷ m) k = if j == k then some v else find m k

pub insert_map : MapType → ℕ → ℕ → MapType
insert_map [] k v = (k, v) ∷ []
insert_map ((j, w) ∷ m) k v = if j == k then (j, w) ∷ m else (j, w) ∷ insert_map m k v

-- The calls of `insert_map` for one table, in order.
pub insert_all : MapType → List (ℕ × ℕ) → MapType
insert_all m [] = m
insert_all m ((k, v) ∷ r) = insert_all (insert_map m k v) r

pub record SpParamsCheck : Type 0 where
  pub map_baud : MapType
  pub map_db : MapType
  pub map_sb : MapType
  pub map_fctrl : MapType
  pub map_parity : MapType

abbrev pub baud_entries : List (ℕ × ℕ)
baud_entries =
    (baud_rate_110, baud_rate_110)
    ∷ (baud_rate_300, baud_rate_300)
    ∷ (baud_rate_600, baud_rate_600)
    ∷ (baud_rate_1200, baud_rate_1200)
    ∷ (baud_rate_2400, baud_rate_2400)
    ∷ (baud_rate_4800, baud_rate_4800)
    ∷ (baud_rate_9600, baud_rate_9600)
    ∷ (baud_rate_14400, baud_rate_14400)
    ∷ (baud_rate_19200, baud_rate_19200)
    ∷ (baud_rate_38400, baud_rate_38400)
    ∷ (baud_rate_56000, baud_rate_56000)
    ∷ (baud_rate_57600, baud_rate_57600)
    ∷ (baud_rate_115200, baud_rate_115200)
    ∷ (baud_rate_921600, baud_rate_921600)
    ∷ []

abbrev pub stop_entries : List (ℕ × ℕ)
stop_entries = (stop_1, stop_1) ∷ (stop_1_5, stop_1_5) ∷ (stop_2, stop_2) ∷ []

abbrev pub flow_entries : List (ℕ × ℕ)
flow_entries = (flow_ctl_none, 0) ∷ (flow_ctl_hardware, 1) ∷ (flow_ctl_software, 2) ∷ []

abbrev pub parity_entries : Platform → List (ℕ × ℕ)
parity_entries os_is_win =
    (parity_none, 0)
    ∷ (parity_odd, 1)
    ∷ (parity_even, 2)
    ∷ (parity_mark, 3)
    ∷ (parity_space, 4)
    ∷ []
parity_entries os_is_linux =
    (parity_none, 0) ∷ (parity_odd, 1) ∷ (parity_even, 2) ∷ (parity_space, 4) ∷ []

abbrev pub data_entries : List (ℕ × ℕ)
data_entries =
    (data_bits_5, data_bits_5)
    ∷ (data_bits_6, data_bits_6)
    ∷ (data_bits_7, data_bits_7)
    ∷ (data_bits_8, data_bits_8)
    ∷ []

pub init_map : Platform → SpParamsCheck → SpParamsCheck
init_map os c = record {
  map_baud = insert_all c.map_baud baud_entries;
  map_db = insert_all c.map_db data_entries;
  map_sb = insert_all c.map_sb stop_entries;
  map_fctrl = insert_all c.map_fctrl flow_entries;
  map_parity = insert_all c.map_parity (parity_entries os);
}

-- The constructor fills empty maps, and `get_instance` returns a copy of the one object.
unfoldable pub get_instance : Platform → SpParamsCheck
unfolding init_map insert_all insert_map
get_instance os =
    init_map os
      (record { map_baud = []; map_db = []; map_sb = []; map_fctrl = []; map_parity = [] })

unfoldable pub map_find : MapType → ℕ → ℤ
unfolding find
map_find spp_map key = elim (find spp_map key) [ none ↦ minus 1 | some _ ↦ pos 0 ]

unfoldable pub is_right : SpParamsCheck → SpProp → ℤ
is_right c spp =
    if length spp.name == 0
    then minus 1
    else if not (eq_ℤ (pos 0) (map_find c.map_baud spp.baud_rate))
    then pos 0
    else if not (eq_ℤ (pos 0) (map_find c.map_sb spp.stop_bits))
    then minus 3
    else if not (eq_ℤ (pos 0) (map_find c.map_db spp.data_bits))
    then minus 4
    else if not (eq_ℤ (pos 0) (map_find c.map_fctrl spp.flow_ctl))
    then minus 5
    else if not (eq_ℤ (pos 0) (map_find c.map_parity spp.parity))
    then minus 6
    else pos 0

-- Compiled on Linux only.
unfoldable pub get_baud : SpParamsCheck → ℕ → ℕ
get_baud c key = elim (find c.map_baud key) [ none ↦ 9600 | some v ↦ v ]
