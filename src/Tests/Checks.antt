-- ===== src/Tests/Checks.antt =====
-- Property sets that the check accepts and refuses, and the attributes that they lead to.
use lib_sp.Base.{◌≡◌, refl, false, [], ◌∷◌, pos, minus, arith}
use lib_sp.Params.Props.{Platform, os_is_win, os_is_linux, SpProp, sp_prop_zero}
use lib_sp.Params.Check.{get_instance, is_right, map_find, find}
use lib_sp.Params.Check.Verdicts.{Verdict, is_right-Verdict}
use lib_sp.Linux.Termios.{
  Termios, configure, set_data_bits, set_stop_bits, set_flow_ctl, set_parity,
}
use lib_sp.Linux.Termios.Laws.{char_size, effective_size, char_size-configure}

-- /dev/ttyS0, 8 data bits, no parity, two stop bits.
abbrev pub plain : SpProp
plain = record sp_prop_zero {
  name = b'/' ∷ b'd' ∷ b'e' ∷ b'v' ∷ b'/' ∷ b't' ∷ b't' ∷ b'y' ∷ b'S' ∷ b'0' ∷ [];
  parity = 0;
  stop_bits = 2;
}

-- A rate that no enumerator names, with stop bits that are out of range.
abbrev odd_rate : SpProp
odd_rate = record plain { baud_rate = 12345; stop_bits = 9 }

abbrev pub blank : Termios
blank = record {
  c_iflag = λ _. false;
  c_oflag = λ _. false;
  c_cflag = λ _. false;
  c_lflag = λ _. false;
  c_cc = λ _. 0;
}

pub plain_passes : (os : Platform) → is_right (get_instance os) plain ≡ pos 0
unfolding is_right map_find find get_instance
plain_passes os_is_win = refl
plain_passes os_is_linux = refl

odd_rate_passes : is_right (get_instance os_is_linux) odd_rate ≡ pos 0
unfolding is_right map_find find get_instance
odd_rate_passes = refl

mark_refused : is_right (get_instance os_is_linux) (record plain { parity = 3 }) ≡ minus 6
unfolding is_right map_find find get_instance
mark_refused = refl

is_right-Verdict_example :
    Verdict os_is_linux odd_rate (is_right (get_instance os_is_linux) odd_rate)
is_right-Verdict_example = is_right-Verdict os_is_linux odd_rate

-- 8 data bits without parity come out as 7.
eight_become_seven : char_size (configure plain blank).c_cflag ≡ 7
unfolding configure set_data_bits set_stop_bits set_flow_ctl set_parity
eight_become_seven = refl

char_size-configure_example :
    char_size (configure plain blank).c_cflag ≡ effective_size plain.parity plain.data_bits
char_size-configure_example = char_size-configure plain blank (omega arith) (omega arith)
