-- ===== src/Linux/Termios.antt =====
-- src/serial_port_linux_base.cpp: how `set_port_params` changes the terminal attributes. The flag
-- constants are those of <asm-generic/termbits.h>.
pub mod Laws
use Prim.Native.Nat.{bit_or}
use lib_sp.Base.{ℕ, Word, ◌|=◌, ◌&=~◌, ◌==◌, if◌then◌else◌}
use lib_sp.Params.Enums.{
  data_bits_5, data_bits_6, data_bits_7, data_bits_8, stop_1, stop_1_5, stop_2, flow_ctl_none,
  flow_ctl_hardware, flow_ctl_software, parity_none, parity_odd, parity_even, parity_space,
}
use lib_sp.Params.Props.{SpProp}

-- `struct termios`; the line discipline and the speeds are not touched by the code itself.
pub record Termios : Type 0 where
  pub c_iflag : Word
  pub c_oflag : Word
  pub c_cflag : Word
  pub c_lflag : Word
  pub c_cc : ℕ → ℕ

abbrev pub csize : ℕ
csize = 0o60

abbrev pub cs5 : ℕ
cs5 = 0o0

abbrev pub cs6 : ℕ
cs6 = 0o20

abbrev pub cs7 : ℕ
cs7 = 0o40

abbrev pub cs8 : ℕ
cs8 = 0o60

abbrev pub cstopb : ℕ
cstopb = 0o100

abbrev pub parenb : ℕ
parenb = 0o400

abbrev pub parodd : ℕ
parodd = 0o1000

abbrev pub crtscts : ℕ
crtscts = 0o20000000000

abbrev pub brkint : ℕ
brkint = 0o2

abbrev pub inpck : ℕ
inpck = 0o20

abbrev pub istrip : ℕ
istrip = 0o40

abbrev pub icrnl : ℕ
icrnl = 0o400

abbrev pub ixon : ℕ
ixon = 0o2000

abbrev pub ixany : ℕ
ixany = 0o4000

abbrev pub ixoff : ℕ
ixoff = 0o10000

abbrev pub opost : ℕ
opost = 0o1

abbrev pub isig : ℕ
isig = 0o1

abbrev pub icanon : ℕ
icanon = 0o2

abbrev pub echo : ℕ
echo = 0o10

abbrev pub echoe : ℕ
echoe = 0o20

abbrev pub vtime : ℕ
vtime = 5

abbrev pub vmin : ℕ
vmin = 6

-- The switch on the data bits.
unfoldable pub set_data_bits : ℕ → Word → Word
set_data_bits n c =
    if n == data_bits_5
    then c &=~ csize |= cs5
    else if n == data_bits_6
    then c &=~ csize |= cs6
    else if n == data_bits_7
    then c &=~ csize |= cs7
    else if n == data_bits_8
    then c &=~ csize |= cs8
    else c

-- The switch on the stop bits.
unfoldable pub set_stop_bits : ℕ → Word → Word
set_stop_bits n c =
    if n == stop_1
    then c &=~ cstopb
    else if n == stop_1_5
    then c &=~ cstopb
    else if n == stop_2
    then c &=~ cstopb
    else c

-- The switch on the flow control.
unfoldable pub set_flow_ctl : ℕ → Word → Word
set_flow_ctl n c =
    if n == flow_ctl_none
    then c &=~ crtscts
    else if n == flow_ctl_hardware
    then c |= crtscts
    else if n == flow_ctl_software
    then c |= bit_or (bit_or ixon ixoff) ixany
    else c

-- The switch on the parity.
unfoldable pub set_parity : ℕ → Word → Word
set_parity n c =
    if n == parity_none
    then c &=~ parenb &=~ inpck
    else if n == parity_odd
    then c |= parenb |= parodd |= inpck |= istrip
    else if n == parity_even
    then c |= parenb &=~ parodd |= inpck |= istrip
    else if n == parity_space
    then c &=~ parenb &=~ cstopb
    else c

-- `c_cc[i] = v`
abbrev pub set_cc : (ℕ → ℕ) → ℕ → ℕ → ℕ → ℕ
set_cc cc i v j = if i == j then v else cc j

-- The statements between the speed calls and `tcflush`.
unfoldable pub configure : SpProp → Termios → Termios
configure spp options = record options {
  c_cflag = set_parity spp.parity (
      set_flow_ctl spp.flow_ctl
        (set_stop_bits spp.stop_bits (set_data_bits spp.data_bits options.c_cflag)));
  c_oflag = options.c_oflag &=~ opost;
  c_lflag = options.c_lflag &=~ bit_or (bit_or (bit_or icanon echo) echoe) isig;
  c_iflag = options.c_iflag &=~ bit_or (bit_or (bit_or (bit_or brkint icrnl) inpck) istrip) ixon;
  c_cc = set_cc (set_cc options.c_cc vtime 0) vmin 1;
}
