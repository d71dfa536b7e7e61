-- ===== src/Linux/Stream.antt =====
-- The bytes on the line of a Linux port: what the device has taken by `write` and what was read
-- from it by `read`.
pub mod Sending
pub mod Receiving
pub mod Line
use lib_sp.Base.{ℕ, ◌+◌, List, [], ◌∷◌, ◌++◌, ℤ, none, some, take}
use lib_sp.Interface.{Op, op_init, op_open, op_close, op_set_read_notify, op_send}
use lib_sp.Linux.Os.{Event, event, call_write, call_read}
use lib_sp.Linux.Reader.{to_length}

-- The bytes that the device has taken in a trace, oldest first: the part of the data of a `write`
-- that its result counts.
unfoldable pub taken : List Event → List ℕ
taken [] = []
taken (event (call_write fd d) r ∷ t) = taken t ++ take (to_length r) d
taken (event c r ∷ t) = taken t

-- How many bytes the reads of a trace have returned.
unfoldable pub consumed : List Event → ℕ
consumed [] = 0
consumed (event (call_read fd n) r ∷ t) = consumed t + to_length r
consumed (event c r ∷ t) = consumed t

-- What a caller may count as sent, from the code of a call.
abbrev pub counted : Op → ℤ → List ℕ
counted (op_send (some d) n) c = take (to_length c) (take n d)
counted _ c = []

-- The same of the calls of a session with their codes.
unfoldable pub sent : List (Op × ℤ) → List ℕ
sent [] = []
sent ((o, c) ∷ log) = counted o c ++ sent log

-- The data that a receiver was handed as one text; the newest piece stands first in `delivered`.
unfoldable pub text : List (ℕ × List ℕ) → List ℕ
text [] = []
text ((q, d) ∷ ds) = text ds ++ d
