-- ===== src/Params/Enums.antt =====
-- include/serial_port/serial_port_interface.h: the enumerations. An enumeration is its `int`
-- value, since a caller may cast a value of no enumerator to it.
use lib_sp.Base.{ℕ}

-- enum operator_mode
abbrev pub mode_async : ℕ
mode_async = 0

abbrev pub mode_sync : ℕ
mode_sync = 1

-- enum baud_rate
abbrev pub baud_rate_110 : ℕ
baud_rate_110 = 110

abbrev pub baud_rate_300 : ℕ
baud_rate_300 = 300

abbrev pub baud_rate_600 : ℕ
baud_rate_600 = 600

abbrev pub baud_rate_1200 : ℕ
baud_rate_1200 = 1200

abbrev pub baud_rate_2400 : ℕ
baud_rate_2400 = 2400

abbrev pub baud_rate_4800 : ℕ
baud_rate_4800 = 4800

abbrev pub baud_rate_9600 : ℕ
baud_rate_9600 = 9600

abbrev pub baud_rate_14400 : ℕ
baud_rate_14400 = 14400

abbrev pub baud_rate_19200 : ℕ
baud_rate_19200 = 19200

abbrev pub baud_rate_38400 : ℕ
baud_rate_38400 = 38400

abbrev pub baud_rate_56000 : ℕ
baud_rate_56000 = 56000

abbrev pub baud_rate_57600 : ℕ
baud_rate_57600 = 57600

abbrev pub baud_rate_115200 : ℕ
baud_rate_115200 = 115200

abbrev pub baud_rate_921600 : ℕ
baud_rate_921600 = 921600

-- enum data_bits
abbrev pub data_bits_5 : ℕ
data_bits_5 = 5

abbrev pub data_bits_6 : ℕ
data_bits_6 = 6

abbrev pub data_bits_7 : ℕ
data_bits_7 = 7

abbrev pub data_bits_8 : ℕ
data_bits_8 = 8

-- enum stop_bits
abbrev pub stop_1 : ℕ
stop_1 = 0

abbrev pub stop_1_5 : ℕ
stop_1_5 = 1

abbrev pub stop_2 : ℕ
stop_2 = 2

-- enum flow_control
abbrev pub flow_ctl_none : ℕ
flow_ctl_none = 0

abbrev pub flow_ctl_hardware : ℕ
flow_ctl_hardware = 1

abbrev pub flow_ctl_software : ℕ
flow_ctl_software = 2

-- enum parity
abbrev pub parity_none : ℕ
parity_none = 0

abbrev pub parity_odd : ℕ
parity_odd = 1

abbrev pub parity_even : ℕ
parity_even = 2

abbrev pub parity_mark : ℕ
parity_mark = 3

abbrev pub parity_space : ℕ
parity_space = 4
