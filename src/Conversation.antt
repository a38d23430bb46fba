-- ===== src/Conversation.antt =====
-- A client and the server's session at the other end of its connection: what client.cc sends, as
-- session.cc receives it.
pub mod Agreement
pub mod Delivery
use cpp_remote_screen_captur.Base.{
  ℕ, ◌<◌, ◌^◌, ◌+◌, ◌≡◌, List, [], ◌++◌, length, arith, length-append,
}
use cpp_remote_screen_captur.Base.Bytes.{be16}
use cpp_remote_screen_captur.Session.AuthLaws.{auth_payload}
use cpp_remote_screen_captur.Session.Framing.{IsGood}
use cpp_remote_screen_captur.Client.Messages.{auth_frame}

length-auth_payload :
    (hostname username extra : List ℕ)
    → length (auth_payload hostname username extra)
      ≡ length hostname + length username + length extra + 4
length-auth_payload hostname username extra =
    let back : List ℕ = username ++ extra in
    omega
      (arith, length-append hostname (be16 (length username) ++ back), length-append username extra)

-- The frame of two names is within the session's limit.
pub auth_frame-IsGood :
    (hostname username : List ℕ)
    → length hostname < 2 ^ 16
    → length username < 2 ^ 16
    → IsGood (auth_frame hostname username)
auth_frame-IsGood hostname username lh lu =
    let n = length-auth_payload hostname username [] in (omega arith, omega arith)
