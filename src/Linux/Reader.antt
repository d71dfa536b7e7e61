-- ===== src/Linux/Reader.antt =====
-- src/serial_port_linux_base.cpp: the loop of `thread_recv_data_monitor`. The debug output and the
-- ends of the thread are left out.
pub mod Buffer
pub mod Rounds
pub mod Delivery
pub mod Backlog
use lib_sp.Base.{
  ℕ, zero, suc, Bool, true, false, not, Option, none, some, List, ℤ, pos, negsuc, to_unsigned,
  is_positive, leb, ltb, if◌then◌else◌, take,
}
use lib_sp.Linux.State.{len_buf_1024}
use lib_sp.Effect.{returned, pure, ◌>>=◌, ◌>>◌}
use lib_sp.Linux.Os.{
  Os, World, M, get_param, invoke, get_pending, get_bytes, on_recv_data, call_fionread, call_read,
}
use lib_sp.Linux.Port.{lock, unlock, is_opened}

-- The magnitude of a result that is at least 1.
abbrev pub to_length : ℤ → ℕ
to_length (pos n) = n
to_length (negsuc n) = 0

-- `len_buf_1024 < has_read_bytes`, a comparison of two `int`.
abbrev pub is_too_long : ℤ → Bool
is_too_long (pos n) = ltb len_buf_1024 n
is_too_long (negsuc n) = false

-- `if (thread_param._precv_data) thread_param._precv_data->on_recv_data(...)`
abbrev pub notify : Option ℕ → List ℕ → M (Unit {0})
notify none data_read = pure tt
notify (some r) data_read = on_recv_data r data_read

-- What `ioctl` has left in the local variable.
abbrev pub stored_or : ℤ → Option ℤ → ℤ
stored_or has_read_bytes none = has_read_bytes
stored_or has_read_bytes (some n) = n

module _ (os : Os) where
  -- The critical section: read what the device has and hand it on. The count is converted to
  -- `size_t`.
  unfoldable pub read_locked : ℤ → M (Unit {0})
  unfolding is_opened
  read_locked has_read_bytes = do
    opened ← is_opened
    if not opened then pure tt else (do
      p ← get_param
      ret_read ← invoke os (call_read p.fd (to_unsigned 64 has_read_bytes))
      buf_read ← get_bytes os
      if is_positive ret_read
          then notify p.precv_data (take (to_length ret_read) buf_read)
          else pure tt)

  -- What a round does with the number of bytes at hand. `has_read_bytes >= _min_byte_read_notify`
  -- compares as `unsigned int`.
  unfoldable pub serve : ℤ → M ℤ
  unfolding lock unlock
  serve has = do
    p ← get_param
    if is_too_long has
        then pure has
        else if leb p.min_byte_read_notify (to_unsigned 32 has)
        then (do lock; read_locked has; unlock; pure has)
        else pure has

  -- The body of the loop after the flag was seen set; `has_read_bytes` is the local variable, which
  -- `ioctl` may leave alone.
  unfoldable pub round : ℤ → M ℤ
  round has_read_bytes = do
    p ← get_param
    _ ← invoke os (call_fionread p.fd)
    stored ← get_pending os
    serve (stored_or has_read_bytes stored)

  -- At most `n` rounds, for as long as the flag is seen set.
  unfoldable pub rounds : ℕ → ℤ → M ℤ
  rounds zero has_read_bytes = pure has_read_bytes
  rounds (suc n) has_read_bytes = do
    p ← get_param
    elim p.thread_recv_is_running [
      | true ↦ (do has ← round has_read_bytes; rounds n has)
      | false ↦ pure has_read_bytes
    ]
