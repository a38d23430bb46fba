-- ===== src/Logger.antt =====
-- common/include/logger.h and common/src/logger.cc: a line on one of three streams.
pub mod Timestamp
pub mod Stamps
use cpp_remote_screen_captur.Base.{ℕ, List, ◌++◌, ◌≢◌, refl, arith}
use cpp_remote_screen_captur.Base.Bytes.{codes}

pub data MessageType : Type 0 where
  k_info k_error k_warning : MessageType

pub data Stream : Type 0 where
  cout cerr clog : Stream

unfoldable pub type_to_stream : MessageType → Stream
type_to_stream k_info = cout
type_to_stream k_error = cerr
type_to_stream k_warning = clog

unfoldable pub type_to_string : MessageType → List ℕ
type_to_string k_info = codes "INFO"
type_to_string k_error = codes "ERROR"
type_to_string k_warning = codes "WARNING"

-- `timestamp` is what `GetCurrentTimestamp` has given; the stream and the line that it is given.
unfoldable pub print_in_terminal : MessageType → List ℕ → List ℕ → Stream × List ℕ
unfolding type_to_stream type_to_string
print_in_terminal type timestamp msg = (
  type_to_stream type,
  codes "["
      ++ (type_to_string type
          ++ (codes "] [" ++ (timestamp ++ (codes "] " ++ (msg ++ codes "\n"))))),
)

-- Lines of two different types differ, and so do their streams, whatever the times and the
-- messages are.
pub print_in_terminal-ne :
    (t u : MessageType) (time_t time_u msg_t msg_u : List ℕ)
    → t ≢ u
    → ((print_in_terminal t time_t msg_t).0 ≢ (print_in_terminal u time_u msg_u).0)
      × ((print_in_terminal t time_t msg_t).1 ≢ (print_in_terminal u time_u msg_u).1)
unfolding print_in_terminal
print_in_terminal-ne k_info k_info a b c d h = absurd (h refl)
print_in_terminal-ne k_error k_error a b c d h = absurd (h refl)
print_in_terminal-ne k_warning k_warning a b c d h = absurd (h refl)
print_in_terminal-ne _ _ a b c d h = ((λ e. ground arith), (λ e. ground arith))
