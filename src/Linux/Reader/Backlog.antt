-- ===== src/Linux/Reader/Backlog.antt =====
-- A backlog of more bytes than the buffer takes is never read.
use lib_sp.Base.{ℕ, ◌≡◌, some, List, ◌∷◌, ℤ, pos, arith, ◌<◌}
use lib_sp.Linux.State.{len_buf_1024}
use lib_sp.Effect.{Ends}
use lib_sp.Linux.Os.{Event, event, Os, World, call_fionread}
use lib_sp.Linux.Reader.Rounds.{rounds-keeps}
use lib_sp.Linux.Reader.Delivery.{chunks}
use lib_sp.Linux.Reader.{round, rounds, serve}

-- The device reports more bytes than the buffer takes for as long as what was read is `cs`: bytes
-- that nobody reads stay in the queue.
abbrev pub Backlogged : Os → List (List ℕ) → Type 0
Backlogged os cs =
    (t : List Event)
    → chunks os t ≡ cs
    → (n : ℕ) × (os.pending t ≡ some (pos n)) × (len_buf_1024 < n)

-- What was read and what the receiver was handed.
abbrev pub Stalled : Os → List (List ℕ) → List (ℕ × List ℕ) → World → Type 0
Stalled os cs ds w = (chunks os w.trace ≡ cs) × (w.delivered ≡ ds)

module _ (os : Os) {cs : List (List ℕ)} {ds : List (ℕ × List ℕ)} (backlog : Backlogged os cs) where
  round-Stalled :
      (h : ℤ) (w : World)
      → Stalled os cs ds w
      → Ends (λ _. Stalled os cs ds) (λ _. ⊥) (round os h w)
  unfolding round serve chunks
  round-Stalled h w k = ground (
    arith,
    backlog (event (call_fionread w.fd) (os.result w.trace (call_fionread w.fd)) ∷ w.trace),
  )

  -- Once more than 1024 bytes wait in the device nothing is read or handed on any more, in any
  -- number of rounds.
  pub rounds-Stalled :
      (n : ℕ) (h : ℤ) (w : World)
      → Stalled os cs ds w
      → Ends (λ _. Stalled os cs ds) (λ _. ⊥) (rounds os n h w)
  rounds-Stalled = rounds-keeps os (λ _. Stalled os cs ds) (λ _. ⊥) round-Stalled
