-- ===== src/Params/Check/Verdicts.antt =====
-- What `sp_params_check::is_right` and `get_baud` answer, in terms of the values themselves.
use lib_sp.Base.{
  ℕ, ◌≤◌, ◌≡◌, refl, ◌≢◌, ◌↔◌, ◌⊎◌, inl, inr, List, [], ◌∷◌, ℤ, pos, minus, arith, length, ◌==◌,
  false,
}
use lib_sp.Params.Props.{Platform, os_is_win, os_is_linux, SpProp}
use lib_sp.Params.Check.{
  find, map_find, get_instance, is_right, get_baud, baud_entries, stop_entries, flow_entries,
  parity_entries, data_entries,
}

abbrev OneOf : ℕ → List ℕ → Type 0
OneOf n [] = ⊥
OneOf n (x ∷ xs) = (n ≡ x) ⊎ OneOf n xs

-- The rates that the interface names.
abbrev pub IsBaud : ℕ → Type 0
IsBaud n = OneOf n (
    110 ∷ 300 ∷ 600 ∷ 1200 ∷ 2400 ∷ 4800 ∷ 9600 ∷ 14400 ∷ 19200 ∷ 38400 ∷ 56000 ∷ 57600 ∷ 115200
    ∷ 921600 ∷ [])

-- Mark parity is known on Windows only.
abbrev pub IsParity : Platform → ℕ → Type 0
IsParity os_is_win n = n ≤ 4
IsParity os_is_linux n = (n ≤ 4) × (n ≢ 3)

abbrev pub IsDataBits : ℕ → Type 0
IsDataBits n = (5 ≤ n) × (n ≤ 8)

tables :
    (os : Platform)
    → get_instance os ≡ record {
      map_baud = baud_entries;
      map_db = data_entries;
      map_sb = stop_entries;
      map_fctrl = flow_entries;
      map_parity = parity_entries os;
    }
unfolding get_instance
tables os_is_win = refl
tables os_is_linux = refl

abbrev Decides : ℤ → Type 0 → Type 0
Decides r P = ((r ≡ pos 0) × P) ⊎ ((r ≡ minus 1) × (¬ P))

IsBaud-known : (n : ℕ) → Decides (map_find baud_entries n) (IsBaud n)
unfolding map_find find
IsBaud-known n = ground arith

stop_known : (n : ℕ) → Decides (map_find stop_entries n) (n ≤ 2)
unfolding map_find find
stop_known n = ground arith

flow_known : (n : ℕ) → Decides (map_find flow_entries n) (n ≤ 2)
unfolding map_find find
flow_known n = ground arith

data_known : (n : ℕ) → Decides (map_find data_entries n) (IsDataBits n)
unfolding map_find find
data_known n = ground arith

IsParity-known : (os : Platform) (n : ℕ) → Decides (map_find (parity_entries os) n) (IsParity os n)
unfolding map_find find
IsParity-known os_is_win n = ground arith
IsParity-known os_is_linux n = ground arith

-- What a code says of a property set: the first field at fault, baud rates aside.
pub data Verdict (os : Platform) (spp : SpProp) (r : ℤ) : Type 0 where
  no_name : r ≡ minus 1 → spp.name ≡ [] → Verdict os spp r
  unknown_baud : r ≡ pos 0 → spp.name ≢ [] → ¬ IsBaud spp.baud_rate → Verdict os spp r
  bad_stop :
      r ≡ minus 3 → spp.name ≢ [] → IsBaud spp.baud_rate → ¬ (spp.stop_bits ≤ 2) → Verdict os spp r
  bad_data :
      r ≡ minus 4
      → spp.name ≢ []
      → IsBaud spp.baud_rate
      → spp.stop_bits ≤ 2
      → ¬ IsDataBits spp.data_bits
      → Verdict os spp r
  bad_flow :
      r ≡ minus 5
      → spp.name ≢ []
      → IsBaud spp.baud_rate
      → spp.stop_bits ≤ 2
      → IsDataBits spp.data_bits
      → ¬ (spp.flow_ctl ≤ 2)
      → Verdict os spp r
  bad_parity :
      r ≡ minus 6
      → spp.name ≢ []
      → IsBaud spp.baud_rate
      → spp.stop_bits ≤ 2
      → IsDataBits spp.data_bits
      → spp.flow_ctl ≤ 2
      → ¬ IsParity os spp.parity
      → Verdict os spp r
  all_known :
      r ≡ pos 0
      → spp.name ≢ []
      → IsBaud spp.baud_rate
      → spp.stop_bits ≤ 2
      → IsDataBits spp.data_bits
      → spp.flow_ctl ≤ 2
      → IsParity os spp.parity
      → Verdict os spp r

name-cases : (xs : List ℕ) → (xs ≡ []) ⊎ ((xs ≢ []) × ((length xs == 0) ≡ false))
name-cases [] = inl refl
name-cases (x ∷ xs) = inr (λ e. cc, ground arith)

module _ (os : Platform) (spp : SpProp) where
  open spp use {name, baud_rate, stop_bits, data_bits, flow_ctl, parity}

  -- The check of a set with a name and a known rate.
  known_baud-Verdict :
      name ≢ []
      → (length name == 0) ≡ false
      → map_find baud_entries baud_rate ≡ pos 0
      → IsBaud baud_rate
      → Verdict os spp (is_right (get_instance os) spp)
  unfolding is_right
  known_baud-Verdict n e b k = rw (tables os) (elim (stop_known stop_bits) [
    | inr (s, bad) ↦ bad_stop (rw (e, b, s)) n k bad
    | inl (s, ks) ↦ elim (data_known data_bits) [
      | inr (d, bad) ↦ bad_data (rw (e, b, s, d)) n k ks bad
      | inl (d, kd) ↦ elim (flow_known flow_ctl) [
        | inr (f, bad) ↦ bad_flow (rw (e, b, s, d, f)) n k ks kd bad
        | inl (f, kf) ↦ elim (IsParity-known os parity) [
          | inr (p, bad) ↦ bad_parity (rw (e, b, s, d, f, p)) n k ks kd kf bad
          | inl (p, kp) ↦ all_known (rw (e, b, s, d, f, p)) n k ks kd kf kp
        ]
      ]
    ]
  ])

  -- The code that the check returns names the first field at fault in the order name, stop bits,
  -- data bits, flow control, parity; an unknown baud rate ends the check with 0.
  pub is_right-Verdict : Verdict os spp (is_right (get_instance os) spp)
  unfolding is_right
  is_right-Verdict = elim (name-cases name) [
    | inl e ↦ no_name (rw e) e
    | inr (n, e) ↦ elim (IsBaud-known baud_rate) [
      | inr (b, bad) ↦ unknown_baud (rw (tables os, e, b)) n bad
      | inl (b, k) ↦ known_baud-Verdict n e b k
    ]
  ]

  abbrev Known : Type 0
  Known = (stop_bits ≤ 2) × IsDataBits data_bits × (flow_ctl ≤ 2) × IsParity os parity

  Verdict-accepted :
      {r : ℤ} → Verdict os spp r → r ≡ pos 0 → (name ≢ []) × (IsBaud baud_rate → Known)
  Verdict-accepted (no_name c _) e = cc
  Verdict-accepted (unknown_baud _ n k) e = (n, λ b. absurd (k b))
  Verdict-accepted (bad_stop c _ _ _) e = cc
  Verdict-accepted (bad_data c _ _ _ _) e = cc
  Verdict-accepted (bad_flow c _ _ _ _ _) e = cc
  Verdict-accepted (bad_parity c _ _ _ _ _ _) e = cc
  Verdict-accepted (all_known _ n k ks kd kf kp) e = (n, λ _. (ks, kd, kf, kp))

  Verdict-passes : {r : ℤ} → (name ≢ []) × (IsBaud baud_rate → Known) → Verdict os spp r → r ≡ pos 0
  Verdict-passes h (no_name _ e) = absurd (h.0 e)
  Verdict-passes h (unknown_baud c _ _) = c
  Verdict-passes h (bad_stop _ _ k bad) = absurd (bad (h.1 k).0)
  Verdict-passes h (bad_data _ _ k _ bad) = absurd (bad (h.1 k).1)
  Verdict-passes h (bad_flow _ _ k _ _ bad) = absurd (bad (h.1 k).2)
  Verdict-passes h (bad_parity _ _ k _ _ _ bad) = absurd (bad (h.1 k).3)
  Verdict-passes h (all_known c _ _ _ _ _ _) = c

  -- A property set passes exactly when it has a name and either an unknown baud rate or every
  -- field known: with an unknown rate no other field is looked at.
  pub accepted_iff : (is_right (get_instance os) spp ≡ pos 0) ↔ (
      (name ≢ [])
      × (IsBaud baud_rate
          → (stop_bits ≤ 2) × IsDataBits data_bits × (flow_ctl ≤ 2) × IsParity os parity))
  accepted_iff = (Verdict-accepted is_right-Verdict, λ h. Verdict-passes h is_right-Verdict)

-- The rate that `get_baud` gives for a rate that the interface names is that rate, and 9600 for any
-- other.
get_baud_lem :
    (n : ℕ)
    → (IsBaud n → get_baud (get_instance os_is_linux) n ≡ n)
      × (¬ IsBaud n → get_baud (get_instance os_is_linux) n ≡ 9600)
unfolding get_baud find
get_baud_lem n = rw (tables os_is_linux) (λ k. ground arith, λ k. ground arith)
