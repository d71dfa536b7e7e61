-- ===== src/Linux/Reader/Delivery.antt =====
-- What the receiver is handed is what was read from the device.
use lib_sp.Base.{
  ℕ, ◌≡◌, ◌⊎◌, ◌≢◌, some, List, [], ◌∷◌, ℤ, pos, arith, take, map, is_positive, if◌then◌else◌, ◌≤◌,
  ◌<◌,
}
use lib_sp.Linux.State.{len_buf_1024, invalid_value}
use lib_sp.Effect.{Ends}
use lib_sp.Linux.Os.{Event, event, Os, World, call_read}
use lib_sp.Linux.Port.Locking.{Free, Held}
use lib_sp.Linux.Reader.Rounds.{rounds-keeps}
use lib_sp.Linux.Reader.{round, rounds, read_locked, serve, to_length}

-- The bytes of each successful `read` of a trace, newest first.
unfoldable pub chunks : Os → List Event → List (List ℕ)
chunks os [] = []
chunks os (event (call_read fd n) r ∷ t) =
    if is_positive r
    then take (to_length r) (os.bytes (event (call_read fd n) r ∷ t)) ∷ chunks os t
    else chunks os t
chunks os (event c r ∷ t) = chunks os t

-- Receiver `q` was handed the bytes of every successful `read`, in order.
abbrev pub Delivers : Os → ℕ → World → Type 0
Delivers os q w = (w.precv_data ≡ some q) × (w.delivered ≡ map (λ c. (q, c)) (chunks os w.trace))

module _ (os : Os) (q : ℕ) where
  serve-Delivers :
      (h : ℤ) (w : World)
      → Delivers os q w
      → Ends (λ _. Delivers os q) (Delivers os q) (serve os h w)
  unfolding serve read_locked chunks
  serve-Delivers h w k = ground arith

  round-Delivers :
      (h : ℤ) (w : World)
      → Delivers os q w
      → Ends (λ _. Delivers os q) (Delivers os q) (round os h w)
  unfolding round chunks
  round-Delivers h w k = serve-Delivers _ _ k

  -- In any number of rounds no byte that was read is lost, changed, repeated or handed on out of
  -- order: the receiver gets the bytes of each successful `read` by one call, in order.
  pub rounds-Delivers :
      (n : ℕ) (h : ℤ) (w : World)
      → Delivers os q w
      → Ends (λ _. Delivers os q) (Delivers os q) (rounds os n h w)
  rounds-Delivers = rounds-keeps os (λ _. Delivers os q) (Delivers os q) round-Delivers

module _ (os : Os) where
  -- How a round with `has` bytes at hand may go.
  abbrev Served : ℕ → World → World → Type 0
  Served has w w' =
      (((len_buf_1024 < has) ⊎ (has < w.min_byte_read_notify)) × (w' ≡ w))
      ⊎ ((has ≤ len_buf_1024)
          × (w.min_byte_read_notify ≤ has)
          × Free w'
          × (((w.fd ≡ invalid_value) × (w'.trace ≡ w.trace))
              ⊎ ((w.fd ≢ invalid_value)
                  × (w'.trace
                      ≡ event (call_read w.fd has) (os.result w.trace (call_read w.fd has))
                        ∷ w.trace))))

  -- With a free mutex a round always returns. With more bytes at hand than the buffer takes, or
  -- fewer than the receiver wants, it makes no call and changes nothing; otherwise it asks an open
  -- port for those bytes by one `read`, makes no call on a closed one, and leaves the mutex free.
  serve-Served :
      (has : ℕ) (w : World)
      → Free w
      → Ends (λ h w'. (h ≡ pos has) × Served has w w') (λ _. ⊥) (serve os (pos has) w)
  unfolding serve read_locked
  serve-Served has w free = ground arith

  -- With the mutex held elsewhere a round that would read is blocked.
  serve-blocked :
      (has : ℕ) (w : World)
      → w.min_byte_read_notify ≤ has
      → has ≤ len_buf_1024
      → Held w
      → Ends (λ _ _. ⊥) (λ w'. w' ≡ w) (serve os (pos has) w)
  unfolding serve read_locked
  serve-blocked has w enough fits held = ground arith
