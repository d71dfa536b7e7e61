-- ===== src/Linux/Termios/Laws.antt =====
-- What the attributes hold after `set_port_params` has changed them.
use lib_sp.Base.{
  ℕ, ◌+◌, ◌-◌, ◌*◌, ◌/◌, ◌≤◌, ◌≡◌, refl, ◌≢◌, Bool, true, false, ◌||◌, Word, arith, ◌∙◌, if-apply,
  ◌==◌, if◌then◌else◌,
}
use lib_sp.Params.Enums.{
  parity_none, parity_odd, parity_even, parity_space, flow_ctl_none, flow_ctl_hardware,
  flow_ctl_software,
}
use lib_sp.Params.Props.{SpProp}
use lib_sp.Linux.Termios.{
  Termios, configure, set_data_bits, set_stop_bits, set_flow_ctl, set_parity, vmin, vtime,
}

abbrev digit : Bool → ℕ
digit true = 1
digit false = 0

-- The size of a character that the bits CSIZE of a control word ask for.
abbrev pub char_size : Word → ℕ
char_size c = 5 + digit (c 4) + 2 * digit (c 5)

-- With parity none, an even size is taken down to the next odd one, since INPCK stands for bit 4;
-- with odd or even parity every size becomes 8.
abbrev pub effective_size : ℕ → ℕ → ℕ
effective_size parity n =
    if parity == parity_none
    then 5 + 2 * ((n - 5) / 2)
    else if (parity == parity_odd) || (parity == parity_even)
    then 8
    else n

set_data_bits-size : (n : ℕ) (c : Word) → 5 ≤ n → n ≤ 8 → char_size (set_data_bits n c) ≡ n
unfolding set_data_bits
set_data_bits-size n c lo hi = simp if-apply (ground arith)

set_stop_bits-size : (n : ℕ) (c : Word) → char_size (set_stop_bits n c) ≡ char_size c
unfolding set_stop_bits
set_stop_bits-size n c = simp if-apply (ground arith)

set_flow_ctl-size : (n : ℕ) (c : Word) → char_size (set_flow_ctl n c) ≡ char_size c
unfolding set_flow_ctl
set_flow_ctl-size n c = simp if-apply (ground arith)

set_parity-size : (n : ℕ) (c : Word) → char_size (set_parity n c) ≡ effective_size n (char_size c)
unfolding set_parity
set_parity-size n c = simp if-apply (ground arith)

-- Whatever the attributes were, the character size that a known number of data bits ends in: with
-- no parity 8 bits become 7 and 6 become 5, with odd or even parity every number becomes 8, and
-- with another parity it is the number asked for.
pub char_size-configure :
    (spp : SpProp) (t : Termios)
    → 5 ≤ spp.data_bits
    → spp.data_bits ≤ 8
    → char_size (configure spp t).c_cflag ≡ effective_size spp.parity spp.data_bits
unfolding configure
char_size-configure spp t lo hi = rw (
  set_parity-size,
  set_flow_ctl-size,
  set_stop_bits-size,
  set_data_bits-size spp.data_bits t.c_cflag lo hi,
)

set_stop_bits-off : (n : ℕ) (c : Word) → n ≤ 2 → set_stop_bits n c 6 ≡ false
unfolding set_stop_bits
set_stop_bits-off n c h = simp if-apply (ground arith)

set_flow_ctl-stop : (n : ℕ) (c : Word) → set_flow_ctl n c 6 ≡ c 6
unfolding set_flow_ctl
set_flow_ctl-stop n c = simp if-apply (ground arith)

set_parity-stop : (n : ℕ) (c : Word) → c 6 ≡ false → set_parity n c 6 ≡ false
unfolding set_parity
set_parity-stop n c h = simp if-apply (ground arith)

-- CSTOPB is off whenever the stop bits are known, also when two stop bits are asked for.
one_stop_bit :
    (spp : SpProp) (t : Termios) → spp.stop_bits ≤ 2 → (configure spp t).c_cflag 6 ≡ false
unfolding configure
one_stop_bit spp t h =
    set_parity-stop spp.parity _
      (set_flow_ctl-stop spp.flow_ctl _ ∙ set_stop_bits-off spp.stop_bits _ h)

-- PARENB is bit 8 and PARODD bit 9 of the control word.
abbrev ParityBits : ℕ → Word → Type 0
ParityBits p c =
    (p ≡ parity_none → c 8 ≡ false)
    × (p ≡ parity_odd → (c 8 ≡ true) × (c 9 ≡ true))
    × (p ≡ parity_even → (c 8 ≡ true) × (c 9 ≡ false))
    × (p ≡ parity_space → c 8 ≡ false)

set_parity-bits : (n : ℕ) (c : Word) → ParityBits n (set_parity n c)
unfolding set_parity
set_parity-bits n c = simp if-apply (ground arith)

-- The parity that the control word asks for is the one of the property set: off for none and
-- space, on and odd for odd, on and even for even.
parity-configure : (spp : SpProp) (t : Termios) → ParityBits spp.parity (configure spp t).c_cflag
unfolding configure
parity-configure spp t = set_parity-bits spp.parity _

-- Bits 10, 11, 12 and 31 of the control word after a flow control was set.
abbrev pub FlowBits : ℕ → Word → Word → Type 0
FlowBits n before after =
    (n ≡ flow_ctl_none → after 31 ≡ false)
    × (n ≡ flow_ctl_hardware → after 31 ≡ true)
    × (n ≡ flow_ctl_software
        → (after 31 ≡ before 31) × (after 10 ≡ true) × (after 11 ≡ true) × (after 12 ≡ true))

set_flow_ctl-bits : (n : ℕ) (c : Word) → FlowBits n c (set_flow_ctl n c)
unfolding set_flow_ctl
set_flow_ctl-bits n c = simp if-apply (ground arith)

-- The bits that neither the data bits nor the stop bits nor the parity touch.
abbrev SameFlow : Word → Word → Type 0
SameFlow a b = (a 31 ≡ b 31) × (a 10 ≡ b 10) × (a 11 ≡ b 11) × (a 12 ≡ b 12)

set_parity-flow : (n : ℕ) (c : Word) → SameFlow (set_parity n c) c
unfolding set_parity
set_parity-flow n c = simp if-apply (ground arith)

set_stop_bits-flow : (n : ℕ) (c : Word) → SameFlow (set_stop_bits n c) c
unfolding set_stop_bits
set_stop_bits-flow n c = simp if-apply (ground arith)

set_data_bits-flow : (n : ℕ) (c : Word) → SameFlow (set_data_bits n c) c
unfolding set_data_bits
set_data_bits-flow n c = simp if-apply (ground arith)

-- CRTSCTS, bit 31 of the control word, is off for no flow control, on for hardware flow control
-- and left alone for software flow control. Software flow control sets bits 10, 11 and 12 of the
-- control word (HUPCL, CLOCAL and CBAUDEX there). In the input word IXON is off for every flow
-- control, and IXANY and IXOFF (bits 11 and 12) stay as they were.
flow-configure :
    (spp : SpProp) (t : Termios)
    → FlowBits spp.flow_ctl t.c_cflag (configure spp t).c_cflag
      × ((configure spp t).c_iflag 10 ≡ false)
      × ((configure spp t).c_iflag 11 ≡ t.c_iflag 11)
      × ((configure spp t).c_iflag 12 ≡ t.c_iflag 12)
unfolding configure
flow-configure spp t = (
  ground (
    arith,
    set_parity-flow spp.parity (set_flow_ctl spp.flow_ctl framed),
    set_flow_ctl-bits spp.flow_ctl framed,
    set_stop_bits-flow spp.stop_bits (set_data_bits spp.data_bits t.c_cflag),
    set_data_bits-flow spp.data_bits t.c_cflag,
  ),
  ground arith,
  ground arith,
  ground arith,
)
  where
    framed : Word
    framed = set_stop_bits spp.stop_bits (set_data_bits spp.data_bits t.c_cflag)

-- Input is raw: a read waits for one byte and has no timer; canonical mode, echo, signals and
-- output processing are off, and so are break signals, the translation of carriage returns, input
-- parity checks and the stripping of bit 7. The other control characters stay as they were.
raw-configure :
    (spp : SpProp) (t : Termios)
    → let u = configure spp t in
      (u.c_cc vmin ≡ 1)
      × (u.c_cc vtime ≡ 0)
      × ((i : ℕ) → i ≢ vmin → i ≢ vtime → u.c_cc i ≡ t.c_cc i)
      × ((u.c_lflag 0 ≡ false)
          × (u.c_lflag 1 ≡ false)
          × (u.c_lflag 3 ≡ false)
          × (u.c_lflag 4 ≡ false))
      × (u.c_oflag 0 ≡ false)
      × ((u.c_iflag 1 ≡ false)
          × (u.c_iflag 8 ≡ false)
          × (u.c_iflag 4 ≡ false)
          × (u.c_iflag 5 ≡ false))
unfolding configure
raw-configure spp t = (refl, refl, λ i m n. ground arith, ground arith, ground arith, ground arith)
