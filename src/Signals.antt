-- ===== src/Signals.antt =====
-- server.cc and client.cc: `stop_flag` and `signal_handler`, of which each program has one.
pub mod Delivery
use cpp_remote_screen_captur.Base.{ℕ, List, [], ◌∷◌, Bool, true, ◌==◌, if◌then◌else◌}

-- `SIGINT`.
abbrev pub sigint : ℕ
sigint = 2

-- The value of the flag after a call of the handler.
unfoldable pub signal_handler : ℕ → Bool → Bool
signal_handler sig flag = if sig == sigint then true else flag

unfoldable pub deliver : List ℕ → Bool → Bool
deliver [] flag = flag
deliver (sig ∷ sigs) flag = deliver sigs (signal_handler sig flag)

-- What `stop_flag.load` gives, call by call, if each of the lists of signals comes before one call
-- and behind the calls in front of it.
unfoldable pub readings : Bool → List (List ℕ) → List Bool
unfolding deliver
readings flag [] = []
readings flag (sigs ∷ more) = let now = deliver sigs flag in now ∷ readings now more
