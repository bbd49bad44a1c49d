-- ===== src/Server/Respond/Stale.antt =====
-- clueapi/server/client/detail/response_handler: the version of a response to a request without a body.
use clueapi.Base.{ℕ, Bool, true, false, Option}
use clueapi.Base.Bytes.{Bytes}
use clueapi.Http.Multipart.{Disk}
use clueapi.Server.Client.{Client, return_to_pool, prepare_for_connection}
use clueapi.Server.Receive.{Peer, Limits, Head, Session, take_head}
use clueapi.Server.Respond.{Wire, Style}

module _ {W : Type 0} (peer : Peer W) (disk : Disk W) (cfg : Limits) (wire : Wire W) (style : Style)
    (same iequals : Bytes → Bytes → Bool) (stoull : Bytes → Option ℕ) where
  -- A client that was given back and takes another connection, with what a header says of its request.
  abbrev pub next_session : Client → Head → W → Session W
  next_session c h w =
      let d = (prepare_for_connection true false (return_to_pool c)).1 in
      record { client = record d { request = take_head same h d.request }; world = w }
