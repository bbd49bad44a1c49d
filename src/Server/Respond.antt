-- ===== src/Server/Respond.antt =====
-- clueapi/server/client/detail/response_handler: the response to a request is made and written.
pub mod Closing
pub mod Stale
use clueapi.Base.{
  ℕ, ◌≡◌, ◌==◌, ◌&&◌, Bool, true, false, not, List, [], ◌∷◌, Option, none, some, if◌then◌else◌,
}
use clueapi.Base.Bytes.{Bytes, codes}
use clueapi.Http.Chunks.{Writer, write_final_chunk}
use clueapi.Http.Request.{Request, Fields, keep_alive}
use clueapi.Http.Status.{to_str}
use clueapi.Server.Receive.{Ec, Session, close_connection, is_error}

-- A response of the application; `stream_fn` writes the chunks, says whether it succeeded, and throws
-- nothing.
pub record Reply (W : Type 0) : Type 0 where
  pub status : ℕ
  pub headers : Fields
  pub cookies : List Bytes
  pub body : Bytes
  pub is_stream : Bool
  pub stream_fn : Writer W → Writer W × Bool

-- What Beast is given to write; its `prepare_payload` adds the length as it writes.
pub record Message : Type 0 where
  pub http_version : ℕ
  pub code : ℕ
  pub fields : Fields
  pub content : Bytes
  pub chunked : Bool
  pub keeps_alive : Bool

-- What a write ends with: whether the timer came first, the error, and the world behind it.
pub record Written (W : Type 0) : Type 0 where
  pub late : Bool
  pub ec : Ec
  pub world : W

-- Beast's writes and its `insert` and `set`, asio's `async_write`, fmt's `{:X}`, the middlewares, which
-- may be missing and may throw, and nlohmann's text of an error.
pub record Wire (W : Type 0) : Type 0 where
  pub write : Message → W → Written W
  pub write_header : Message → W → Written W
  pub insert_field : Bytes → Bytes → Fields → Fields
  pub set_field : Bytes → Bytes → Fields → Fields
  pub async_write : Bytes → W → W × Bool
  pub format : ℕ → Bytes
  pub chain : Option (Request → W → Option (Reply W) × W)
  pub error_json : Bytes → Bytes → Bytes

-- Of the configuration, whether errors are plain texts, and the text of the time that a connection stays.
pub record Style : Type 0 where
  pub plain : Bool
  pub keep_alive_timeout : Bytes

-- `status_t::unknown`
abbrev pub unknown : ℕ
unknown = 1000

pub data Answered (W : Type 0) : Type 0 where
  answered : Session W → Answered W
  failed : Session W → Answered W
  threw : Session W → Answered W

-- `same` compares names of headers, and `iequals` is Boost's.
module _ {W : Type 0} (wire : Wire W) (style : Style) (same iequals : Bytes → Bytes → Bool) where
  unfoldable pub insert_all : Fields → Fields → Fields
  insert_all [] fs = fs
  insert_all ((name, value) ∷ hs) fs = insert_all hs (wire.insert_field name value fs)

  unfoldable pub insert_cookies : List Bytes → Fields → Fields
  insert_cookies [] fs = fs
  insert_cookies (c ∷ cs) fs = insert_cookies cs (wire.insert_field (codes "Set-Cookie") c fs)

  unfoldable pub prepare_response : Reply W → Session W → Message × Session W
  unfolding insert_all insert_cookies keep_alive
  prepare_response reply s =
      let fs = insert_cookies reply.cookies (insert_all reply.headers []) in
      let keeps = keep_alive same iequals s.client.request in
      (
        record {
          http_version = s.client.beast_request.version;
          code = reply.status;
          fields =
              if keeps
              then wire.set_field (codes "Keep-Alive") style.keep_alive_timeout
                  (wire.set_field (codes "Connection") (codes "keep-alive") fs)
              else wire.set_field (codes "Connection") (codes "close") fs;
          content = [];
          chunked = false;
          keeps_alive = keeps;
        },
        record s { client = record s.client { should_close = not keeps } },
      )

  unfoldable pub raw_respond : Reply W → Session W → Answered W
  unfolding prepare_response close_connection
  raw_respond reply s =
      let (m, q) = prepare_response reply s in
      let w = wire.write (record m { content = reply.body }) q.world in
      let done = record q { world = w.world } in
      if w.late && s.client.timeout_timer
      then failed done
      else if close_connection w.ec false
      then failed done
      else answered done

  -- A header that comes too late is not told from one that was written.
  unfoldable pub stream_respond : Reply W → Session W → Answered W
  unfolding prepare_response is_error write_final_chunk
  stream_respond reply s =
      let (m, q) = prepare_response reply s in
      let w = wire.write_header (record m { chunked = true }) q.world in
      let (behind, ok) =
        reply.stream_fn (record { final_chunk_written = false; socket = w.world }) in
      let (closed, ok') = write_final_chunk wire.format wire.async_write behind in
      if is_error w.ec
      then failed (record q { world = w.world })
      else answered (record q { world = closed.socket })

  unfoldable pub send_error_response : ℕ → Session W → Session W
  unfolding to_str
  send_error_response status s =
      let text = to_str status in
      let m : Message = record {
        http_version = s.client.beast_request.version;
        code = status;
        fields = [];
        content = if style.plain then text else wire.error_json text text;
        chunked = false;
        keeps_alive = true;
      } in
      record s { world = (wire.write m s.world).world }

  -- The status is still unknown where no response was made.
  unfoldable pub respond : Session W → Answered W
  unfolding send_error_response raw_respond stream_respond
  respond s =
      let begun = record s {
        client = record s.client { response_data = false; response_status = unknown };
      } in
      elim wire.chain [
        | none ↦ answered (send_error_response 500 begun)
        | some run ↦
            let (made, w) = run s.client.request s.world in
            elim made [
              | none ↦ threw (record begun { world = w })
              | some reply ↦
                  let taken : Session W = record {
                    client = record s.client {
                      response_data = true;
                      response_status = reply.status;
                    };
                    world = w;
                  } in
                  if reply.status == unknown
                  then answered (send_error_response 500 taken)
                  else if reply.is_stream
                  then stream_respond reply taken
                  else raw_respond reply taken
            ]
      ]
