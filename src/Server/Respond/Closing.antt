-- ===== src/Server/Respond/Closing.antt =====
-- clueapi/server/client/detail/response_handler: when a connection is to be closed behind a response.
use clueapi.Base.{◌≡◌, refl, ◌==◌, ◌&&◌, Bool, true, false, not, Option, some, if-split}
use clueapi.Base.Bytes.{Bytes}
use clueapi.Http.Request.{Request, keep_alive}
use clueapi.Server.Receive.{Session, close_connection, is_error}
use clueapi.Server.Respond.{
  Reply, Wire, Style, Answered, answered, failed, threw, prepare_response, raw_respond,
  stream_respond, respond, unknown,
}

-- Where the handler answers, the mark for closing is `b`.
abbrev pub Marks : {W : Type 0} → Bool → Answered W → Type 0
Marks b (answered s) = s.client.should_close ≡ b
Marks b (failed s) = s.client.should_close ≡ b
Marks b (threw s) = ⊥

module _ {W : Type 0} (wire : Wire W) (style : Style) (same iequals : Bytes → Bytes → Bool) where
  raw_respond-Marks :
      (reply : Reply W) (s : Session W)
      → Marks
          (not (keep_alive same iequals s.client.request))
          (raw_respond wire style same iequals reply s)
  unfolding raw_respond prepare_response
  raw_respond-Marks reply s =
      let (m, q) = prepare_response wire style same iequals reply s in
      let w = wire.write (record m { content = reply.body }) q.world in
      if-split (Marks {W = W} (not (keep_alive same iequals s.client.request)))
        (w.late && s.client.timeout_timer) (λ _. refl)
        (λ _.
          if-split (Marks {W = W} (not (keep_alive same iequals s.client.request)))
            (close_connection w.ec false) (λ _. refl) (λ _. refl))

  stream_respond-Marks :
      (reply : Reply W) (s : Session W)
      → Marks
          (not (keep_alive same iequals s.client.request))
          (stream_respond wire style same iequals reply s)
  unfolding stream_respond prepare_response
  stream_respond-Marks reply s =
      let (m, q) = prepare_response wire style same iequals reply s in
      if-split (Marks {W = W} (not (keep_alive same iequals s.client.request)))
        (is_error (wire.write_header (record m { chunked = true }) q.world).ec) (λ _. refl)
        (λ _. refl)

  -- Where the middlewares make a response with a status, whether the connection is closed behind it,
  -- also where the write fails, is what the request asked for.
  pub respond-Marks :
      (run : Request → W → Option (Reply W) × W) (reply : Reply W) (s : Session W)
      → wire.chain ≡ some run
      → (run s.client.request s.world).0 ≡ some reply
      → (reply.status == unknown) ≡ false
      → Marks (not (keep_alive same iequals s.client.request)) (respond wire style same iequals s)
  unfolding respond
  respond-Marks run reply s c made known =
      let taken : Session W = record {
        client = record s.client { response_data = true; response_status = reply.status };
        world = (run s.client.request s.world).1;
      } in
      rw (respond, c, made, known)
        (if-split (Marks {W = W} (not (keep_alive same iequals s.client.request))) reply.is_stream
          (λ _. stream_respond-Marks reply taken) (λ _. raw_respond-Marks reply taken))
