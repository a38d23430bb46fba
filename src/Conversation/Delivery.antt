-- ===== src/Conversation/Delivery.antt =====
-- A whole conversation: `SendLoop` of client.cc at one end, and the events of server.cc at the
-- other, once the request has been answered.
use cpp_remote_screen_captur.Base.{All}
use cpp_remote_screen_captur.Session.Framing.{IsGood}
use cpp_remote_screen_captur.Client.State.{Client}
use cpp_remote_screen_captur.Client.Loop.{Round}
use cpp_remote_screen_captur.Client.Traffic.{frames_of_grab}
use cpp_remote_screen_captur.Server.State.{Server}
use cpp_remote_screen_captur.Server.Answers.{Answers}
use cpp_remote_screen_captur.Server.Gallery.{Gallery}

-- An image of 1 to 10485760 bytes, if one is grabbed.
abbrev pub IsModest : Round → Type 0
IsModest r = All IsGood (frames_of_grab r.grab)
