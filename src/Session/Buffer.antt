-- ===== src/Session/Buffer.antt =====
-- session.cc: reading numbers and strings off the front of a buffer.
use cpp_remote_screen_captur.Base.{
  ℕ, zero, suc, List, [], ◌∷◌, length, take, drop, ltb, if◌then◌else◌,
}
use cpp_remote_screen_captur.Base.Bytes.{of_be16, of_be32}
use cpp_remote_screen_captur.Session.State.{
  Result, ok, err, ◌>>=◌, small_uint8, small_uint16, small_uint32, small_string,
}

-- A byte of a buffer. The callers have checked the size, so the default is not read.
abbrev byte_at : List ℕ → ℕ → ℕ
byte_at [] i = 0
byte_at (b ∷ bs) zero = b
byte_at (b ∷ bs) (suc i) = byte_at bs i

unfoldable pub peek_uint8 : List ℕ → Result ℕ
peek_uint8 buffer = if ltb (length buffer) 1 then err small_uint8 else ok (byte_at buffer 0)

unfoldable pub peek_uint16 : List ℕ → Result ℕ
peek_uint16 buffer =
    if ltb (length buffer) 2
    then err small_uint16
    else ok (of_be16 (byte_at buffer 0) (byte_at buffer 1))

unfoldable pub peek_uint32 : List ℕ → Result ℕ
peek_uint32 buffer =
    if ltb (length buffer) 4
    then err small_uint32
    else ok (of_be32 (byte_at buffer 0) (byte_at buffer 1) (byte_at buffer 2) (byte_at buffer 3))

-- Each `Pop` returns the value and the buffer without the bytes read.
unfoldable pub pop_uint8 : List ℕ → Result (ℕ × List ℕ)
unfolding peek_uint8
pop_uint8 buffer = do value ← peek_uint8 buffer; ok (value, drop 1 buffer)

unfoldable pub pop_uint16 : List ℕ → Result (ℕ × List ℕ)
unfolding peek_uint16
pop_uint16 buffer = do value ← peek_uint16 buffer; ok (value, drop 2 buffer)

unfoldable pub pop_uint32 : List ℕ → Result (ℕ × List ℕ)
unfolding peek_uint32
pop_uint32 buffer = do value ← peek_uint32 buffer; ok (value, drop 4 buffer)

unfoldable pub pop_string : List ℕ → ℕ → Result (List ℕ × List ℕ)
pop_string buffer str_len =
    if ltb (length buffer) str_len
    then err (small_string str_len)
    else ok (take str_len buffer, drop str_len buffer)
