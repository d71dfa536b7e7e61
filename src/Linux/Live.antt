-- ===== src/Linux/Live.antt =====
-- The threads that a program has created and not joined.
use lib_sp.Base.{ℕ, ◌≡◌, Bool, false, ◌||◌, List, [], ◌∷◌, pos, eq_ℤ, ◌==◌, if◌then◌else◌}
use lib_sp.Linux.Os.{Os, World, Event, event, call_pthread_create, call_pthread_join}

unfoldable pub without : ℕ → List ℕ → List ℕ
without x [] = []
without x (y ∷ ys) = if y == x then ys else y ∷ without x ys

-- The threads that were created and not joined in a trace. `pthread_create` returns 0 where it has
-- created a thread.
unfoldable pub threads : Os → List Event → List ℕ
unfolding without
threads os [] = []
threads os (event call_pthread_create r ∷ t) =
    if eq_ℤ (pos 0) r
    then os.thread_id (event call_pthread_create r ∷ t) ∷ threads os t
    else threads os t
threads os (event (call_pthread_join x) r ∷ t) = without x (threads os t)
threads os (event c r ∷ t) = threads os t

unfoldable pub is_among : ℕ → List ℕ → Bool
is_among x [] = false
is_among x (y ∷ ys) = y == x || is_among x ys

-- The handle that the object holds names no thread that can be joined.
abbrev pub Unjoinable : Os → World → Type 0
Unjoinable os w = is_among w.thread_recv (threads os w.trace) ≡ false
