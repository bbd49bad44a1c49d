-- ===== src/Server/Receive.antt =====
-- clueapi/server/client/detail/request_handler: a request is read off the socket; a multipart body
-- goes into a file, any other body into the request.
pub mod Stream
pub mod Refused
pub mod Oversized
use clueapi.Base.{
  ℕ, zero, suc, ◌+◌, ◌-◌, ◌&&◌, ◌||◌, Bool, true, false, not, [], ◌∷◌, ◌++◌, Option, none, some,
  length, take, drop, ltb, ◌==◌, if◌then◌else◌,
}
use clueapi.Base.Bytes.{Bytes, codes, is_empty}
use clueapi.Http.Method.{Method, from_str}
use clueapi.Http.Multipart.{Disk}
use clueapi.Http.Request.{Request, Fields, find_field}
use clueapi.Server.Client.{Client, BeastMessage}
use clueapi.Shared.Extract.{extract_str}

-- The error codes that the handler tells apart.
pub data Ec : Type 0 where
  no_error : Ec
  operation_aborted : Ec
  end_of_stream : Ec
  connection_reset : Ec
  end_of_file : Ec
  body_limit : Ec
  timed_out : Ec
  other_error : Ec

unfoldable pub is_error : Ec → Bool
is_error ec = elim ec [ no_error ↦ false | _ ↦ true ]

-- `close_connection(ec, native_handle, skip_left)`: the errors it closes for in any case.
unfoldable pub closes : Ec → Bool
closes ec = elim ec [
  | operation_aborted ↦ true
  | end_of_stream ↦ true
  | connection_reset ↦ true
  | end_of_file ↦ true
  | _ ↦ false
]

unfoldable pub close_connection : Ec → Bool → Bool
unfolding is_error closes
close_connection ec skip_left = closes ec || is_error ec && not skip_left

-- `e_error_code`
pub data ErrorCode : Type 0 where
  success : ErrorCode
  bad_request : ErrorCode
  timeout : ErrorCode
  payload_too_large : ErrorCode
  internal_server_error : ErrorCode

-- What Beast reads of a header.
pub record Head : Type 0 where
  pub target : Bytes
  pub method_string : Bytes
  pub fields : Fields
  pub is_upgrade : Bool

-- What a read ends with: whether the timer came first, the error, what was read, and the buffer, its
-- capacity, and the world behind it.
pub record Read (W A : Type 0) : Type 0 where
  pub late : Bool
  pub ec : Ec
  pub value : A
  pub buffer : Bytes
  pub capacity : ℕ
  pub world : W

-- The socket, read by Beast and by asio: the first number is the limit of the buffer, whose bytes
-- follow. A read of some bytes that fails gives none.
pub record Peer (W : Type 0) : Type 0 where
  pub read_header : ℕ → Bytes → W → Read W Head
  pub read_body : ℕ → ℕ → Bytes → W → Read W BeastMessage
  pub read_some : ℕ → W → Read W Bytes

-- Of the configuration, the limit on requests and the size of a chunk.
pub record Limits : Type 0 where
  pub max_request_size : ℕ
  pub chunk_size : ℕ

pub record Session (W : Type 0) : Type 0 where
  pub client : Client
  pub world : W

-- What the handler ends with; `no_fuel` is no end of it.
pub data Handled (W : Type 0) : Type 0 where
  result : ErrorCode → Session W → Handled W
  unexpected : Session W → Handled W
  threw : Session W → Handled W
  no_fuel : Handled W

-- `headers().emplace(name, value)`, where `same` says which names are one.
unfoldable pub add_header : (Bytes → Bytes → Bool) → Bytes → Bytes → Fields → Fields
unfolding find_field
add_header same name value hs = elim (find_field same name hs) [
  | none ↦ hs ++ (name, value) ∷ []
  | some old ↦ hs
]

unfoldable pub add_headers : (Bytes → Bytes → Bool) → Fields → Fields → Fields
unfolding add_header
add_headers same [] hs = hs
add_headers same ((name, value) ∷ fs) hs = add_headers same fs (add_header same name value hs)

-- The request takes over what the header says.
unfoldable pub take_head : (Bytes → Bytes → Bool) → Head → Request → Request
unfolding add_headers
take_head same h r = record r {
  uri = h.target;
  method = from_str h.method_string;
  headers = add_headers same h.fields r.headers;
}

-- `m_data.m_buffer.consume` and `commit`, and the world that goes with them.
abbrev pub with_buffer : {W : Type 0} → Bytes → ℕ → W → Session W → Session W
with_buffer b capacity w s = record {
  client = record s.client { buffer = b; capacity = capacity };
  world = w;
}

-- `m_data.m_request.parse_path() = std::move(path)`
abbrev pub keep_path : {W : Type 0} → Bytes → Session W → Session W
keep_path path s = record s {
  client = record s.client { request = record s.client.request { parse_path = path } };
}

-- `same` compares names of headers, `istarts_with` is Boost's, and `stoull` throws where it is `none`.
module _ {W : Type 0} (peer : Peer W) (disk : Disk W) (cfg : Limits) where
  -- `while (remaining > 0)`, with fuel; a write that throws is caught. The buffer is empty before a read, so
  -- `prepare` throws where a chunk is larger than its limit; this is caught, too.
  unfoldable pub stream_rounds : ℕ → Bytes → ℕ → Session W → Handled W
  stream_rounds zero path remaining s = no_fuel
  stream_rounds (suc fuel) path remaining s = elim (remaining == 0) [
    | true ↦ result success (keep_path path s)
    | false ↦
        let r = peer.read_some cfg.chunk_size s.world in
        let q = with_buffer r.value r.capacity r.world s in
        let chunk = take remaining s.client.buffer in
        let (written, w) = disk.write path chunk s.world in
        elim (is_empty s.client.buffer) [
          | true ↦ elim (ltb s.client.max_size cfg.chunk_size) [
            | true ↦ result internal_server_error s
            | false ↦ elim (r.late && s.client.timeout_timer) [
              | true ↦ unexpected (with_buffer [] r.capacity r.world s)
              | false ↦ elim (is_empty r.value) [
                | true ↦ result bad_request q
                | false ↦ stream_rounds fuel path remaining q
              ]
            ]
          ]
          | false ↦ elim written [
            | false ↦ result internal_server_error (record s { world = w })
            | true ↦
                stream_rounds fuel path (remaining - length chunk)
                  (with_buffer (drop remaining s.client.buffer) s.client.capacity w s)
          ]
        ]
  ]

  unfoldable pub stream_handle : ℕ → Bytes → ℕ → Session W → Handled W
  unfolding stream_rounds
  stream_handle fuel path content_length s =
      let (opened, w) = disk.open_file path s.world in
      if opened
      then stream_rounds fuel path content_length (record s { world = w })
      else result internal_server_error (record s { world = w })

  -- What `raw_handle` makes of the body that was read.
  unfoldable pub take_body : ℕ → Read W BeastMessage → Session W → Handled W
  unfolding close_connection is_error
  take_body content_length r s =
      let q = with_buffer r.buffer r.capacity r.world s in
      let taken = record q {
        client = record q.client {
          request = record q.client.request { body = r.value.content };
          beast_request = record r.value { content = [] };
        };
      } in
      if r.late && s.client.timeout_timer
      then unexpected q
      else if close_connection r.ec false
      then unexpected q
      else if is_error r.ec
      then result
          (elim r.ec [ body_limit ↦ payload_too_large | timed_out ↦ timeout | _ ↦ bad_request ]) q
      else if ltb 0 content_length && not (length r.value.content == content_length)
      then result bad_request (record q { client = record q.client { beast_request = r.value } })
      else result success taken

  -- The length comes with the header; where none does it is 0.
  unfoldable pub raw_handle : Option Bytes → (Bytes → Option ℕ) → Session W → Handled W
  unfolding take_body
  raw_handle none stoull s = result success s
  raw_handle (some text) stoull s = elim (stoull text) [
    | none ↦ threw s
    | some content_length ↦
        let body = peer.read_body cfg.max_request_size s.client.max_size s.client.buffer s.world in
        if ltb 0 content_length then take_body content_length body s else result success s
  ]

  module _ (same istarts_with : Bytes → Bytes → Bool) (stoull : Bytes → Option ℕ) where
    -- A body of the type `multipart/form-data`.
    unfoldable pub multipart_handle : ℕ → Bytes → Fields → Session W → Handled W
    unfolding stream_handle extract_str find_field
    multipart_handle fuel content_type hdrs s =
        let boundary = extract_str content_type (codes "boundary") in
        if is_empty boundary
        then result bad_request s
        else elim (find_field same (codes "Content-Length") hdrs) [
          | none ↦ result bad_request s
          | some text ↦ elim (stoull text) [
            | none ↦ threw s
            | some content_length ↦
                let (tmp_file, w) = disk.unique_path s.world in
                if ltb cfg.max_request_size content_length
                then result payload_too_large s
                else stream_handle fuel tmp_file content_length (record s { world = w })
          ]
        ]

    unfoldable pub body_handle : ℕ → Head → Session W → Handled W
    unfolding multipart_handle raw_handle find_field
    body_handle fuel h s =
        let hdrs = s.client.request.headers in
        let raw = raw_handle (find_field same (codes "Content-Length") h.fields) stoull s in
        elim (find_field same (codes "Content-Type") hdrs) [
          | none ↦ raw
          | some content_type ↦
              if istarts_with content_type (codes "multipart/form-data")
              then multipart_handle fuel content_type hdrs s
              else raw
        ]

    unfoldable pub handle : ℕ → Session W → Handled W
    unfolding body_handle take_head close_connection
    handle fuel s =
        let r = peer.read_header s.client.max_size s.client.buffer s.world in
        let q = with_buffer r.buffer r.capacity r.world s in
        if r.late && s.client.timeout_timer
        then unexpected q
        else if close_connection r.ec false
        then unexpected q
        else if r.value.is_upgrade
        then unexpected q
        else body_handle fuel r.value (record q {
          client = record q.client { request = take_head same r.value q.client.request };
        })
