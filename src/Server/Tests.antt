-- ===== src/Server/Tests.antt =====
-- The server at concrete inputs: the instances of the theorems.
use clueapi.Base.{
  ℕ, zero, suc, ◌<◌, ◌≡◌, refl, Bool, true, false, List, [], ◌∷◌, ◌++◌, none, some, arith, take,
  drop, length, take-append-drop,
}
use clueapi.Base.Bytes.{Bytes, codes}
use clueapi.Server.Client.{
  Client, new_client, new_message, active, is_idle, return_to_pool, force_cleanup,
  prepare_for_connection, init, is_ready_for_reuse,
}
use clueapi.Server.Client.Reuse.{kept, return_to_pool-kept}
use clueapi.Server.Pool.{
  acquire_client, freed, init_clients, make_clients, push, get_client, set_client, acquire_attempts,
  return_all, free_all,
}
use clueapi.Server.Connections.{
  Serving, connects, ends, run, step, has, connect, begin_session, fetch_add,
}
use clueapi.Server.Connections.Exclusive.{GoesOn, IsServing, run-GoesOn}
use clueapi.Server.Lifecycle.{
  Settings, Impl, World, stopped, start, stop, is_stopped, make_pool, next_stage, settle,
  setup_acceptor, configure_acceptor, start_accept_loops, spawn_loops, acceptor_count, clamp,
  max_of, is_running, destroy_acceptor, destroy_clients,
}
use clueapi.Server.Lifecycle.Restart.{IsReady, IsUp, IsStarted, start-IsStarted}
use clueapi.Server.Lifecycle.Stopping.{stop-start, stop-late_end}
use clueapi.Server.Lifecycle.Leftover.{start-leftover}
use clueapi.Http.Multipart.{Disk}
use clueapi.Server.Receive.{
  Peer, Limits, Session, result, success, no_error, raw_handle, stream_handle, keep_path,
}
use clueapi.Server.Receive.Refused.{IsPlainAnswer, raw_handle-IsPlainAnswer}
use clueapi.Server.Receive.Oversized.{IsServerError, stream_handle-IsServerError}
use clueapi.Server.Receive.Stream.{IsPlainStream, stream_handle-copies}

-- A client that serves a request.
abbrev used : Client
used = record (new_client 16) {
  state = active;
  should_close = true;
  socket = some true;
  timeout_timer = true;
  buffer = codes "GET /";
  capacity = 16;
  response_data = true;
  response_status = 200;
  beast_request = record new_message {
    method_string = codes "GET";
    fields = (codes "Host", codes "a") ∷ [];
  };
}

return_to_pool-kept_example : (return_to_pool used ≡ kept used) × (force_cleanup used ≡ kept used)
unfolding is_idle
return_to_pool-kept_example = return_to_pool-kept used refl

abbrev room : List ℕ → Bool
room queue = true

abbrev settings : Settings
settings = record { max_connections = 2; buffer_capacity = 16; workers = 4; reuse_port = true }

abbrev kind_world : World
kind_world = record {
  made = λ i. true;
  port_available = true;
  address = true;
  port = true;
  acceptor_ctx = true;
  opens = true;
  binds = true;
  listens = true;
  first_ctx = true;
  next_ctx = λ i. true;
}

abbrev unused : Impl
unused = record {
  state = stopped;
  acceptor = none;
  serving = record {
    clients = record { storage = []; queue = []; next_id = 0 };
    active = 0;
    total = 0;
    busy = [];
    missed = 0;
  };
  loops = 0;
}

unused-IsReady : IsReady unused
unused-IsReady = record {
  at_rest = refl;
  closed = refl;
  unqueued = refl;
  unheld = refl;
  uncounted = refl;
}

start-IsStarted_example : IsStarted (start room settings kind_world unused)
start-IsStarted_example = start-IsStarted room settings kind_world unused unused-IsReady

abbrev up : Impl
up = (start room settings kind_world unused).0

up-IsUp : IsUp up
unfolding start is_stopped make_pool init_clients make_clients push next_stage settle setup_acceptor
    configure_acceptor start_accept_loops spawn_loops acceptor_count clamp max_of
up-IsUp = start-IsStarted room settings kind_world unused unused-IsReady

run-GoesOn_example : GoesOn (run room (connects true false ∷ ends 0 ∷ []) up.serving)
run-GoesOn_example = run-GoesOn room (connects true false ∷ ends 0 ∷ []) up.serving up-IsUp.sound

-- What a stop leaves, where `held` handlers still wait.
abbrev down : ℕ → ℕ → List ℕ → Impl
down held total busy = record {
  state = stopped;
  acceptor = none;
  serving = record {
    clients = record { storage = []; queue = []; next_id = 2 };
    active = held;
    total = total;
    busy = busy;
    missed = 0;
  };
  loops = 1;
}

stop-start_example : IsStarted (start room settings kind_world (down 0 0 []))
unfolding start is_stopped make_pool init_clients make_clients push next_stage settle setup_acceptor
    configure_acceptor start_accept_loops spawn_loops acceptor_count clamp max_of stop is_running
    destroy_acceptor destroy_clients run return_all free_all is_ready_for_reuse
stop-start_example = stop-start room settings [] up (down 0 0 []) kind_world up-IsUp refl refl

start-leftover_example :
    (acquire_client room
      (start room settings kind_world
        (start room settings
          (record kind_world { port_available = false })
          unused).0).0.serving.clients).0
    ≡ freed
unfolding start is_stopped make_pool init_clients make_clients push next_stage settle setup_acceptor
start-leftover_example =
    start-leftover room settings 1 (record kind_world { port_available = false }) kind_world unused
      refl refl refl unused-IsReady refl

-- The server with one connection.
abbrev one_session : Serving
one_session = record {
  clients = record {
    storage = (0, (prepare_for_connection true false (new_client 16)).1) ∷ (1, new_client 16) ∷ [];
    queue = 1 ∷ [];
    next_id = 2;
  };
  active = 1;
  total = 1;
  busy = 0 ∷ [];
  missed = 0;
}

one_session-IsServing : IsServing one_session
unfolding start is_stopped make_pool init_clients make_clients push next_stage settle setup_acceptor
    configure_acceptor start_accept_loops spawn_loops acceptor_count clamp max_of run step connect
    begin_session acquire_client acquire_attempts get_client set_client is_ready_for_reuse
    prepare_for_connection init is_idle fetch_add
one_session-IsServing = run-GoesOn room (connects true false ∷ []) up.serving up-IsUp.sound

stop-late_end_example : step room (down 1 1 (0 ∷ [])).serving (ends 0) ≡ none
unfolding start is_stopped make_pool init_clients make_clients push next_stage settle setup_acceptor
    configure_acceptor start_accept_loops spawn_loops acceptor_count clamp max_of stop is_running
    destroy_acceptor destroy_clients run return_all free_all has
stop-late_end_example =
    stop-late_end room settings [] (record up { serving = one_session }) (down 1 1 (0 ∷ [])) 0
      (record { runs = up-IsUp.runs; accepts = up-IsUp.accepts; sound = one_session-IsServing })
      refl refl

-- A peer that sends what the first half of the world holds, and a disk with one file, the other half.
abbrev pub Ends : Type 0
Ends = Bytes × Bytes

abbrev pub peer : Peer Ends
peer = record {
  read_header = λ n b w. record {
    late = false;
    ec = no_error;
    value = record {
      target = codes "/";
      method_string = codes "POST";
      fields = [];
      is_upgrade = false;
    };
    buffer = b;
    capacity = 16;
    world = w;
  };
  read_body = λ n m b w. record {
    late = false;
    ec = no_error;
    value = record new_message { content = b };
    buffer = [];
    capacity = 16;
    world = w;
  };
  read_some = λ n w. record {
    late = false;
    ec = no_error;
    value = take n w.0;
    buffer = [];
    capacity = 16;
    world = (drop n w.0, w.1);
  };
}

abbrev pub file_disk : Disk Ends
file_disk = record {
  unique_path = λ w. (codes "tmp-0000-0000", w);
  open_file = λ p w. (true, (w.0, []));
  write = λ p b w. (true, (w.0, w.1 ++ b));
  remove = λ p w. (w.0, []);
  file_size = λ p w. length w.1;
}

take_some : (n : ℕ) (s : Bytes) → 0 < n → 0 < length s → 0 < length (take n s)
take_some zero s h p = absurd (omega arith)
take_some (suc n) [] h p = absurd (omega arith)
take_some (suc n) (c ∷ s) h p = omega arith

wire-IsPlainStream : IsPlainStream peer file_disk (λ w. w.0) (λ p w. w.1)
wire-IsPlainStream = record {
  early = λ n w. refl;
  splits = λ n w. take-append-drop n w.0;
  moves = λ n w. take_some n w.0;
  read_keeps = λ n w path. refl;
  takes = λ path b w. refl;
  grows = λ path b w. refl;
  write_keeps = λ path b w. refl;
}

-- A session with two bytes of the body in its buffer.
abbrev session : Session Ends
session = record {
  client = record (new_client 16) { buffer = codes "ab" };
  world = (codes "cdef", []);
}

abbrev pub limits : Limits
limits = record { max_request_size = 64; chunk_size = 2 }

stream_handle-copies_example :
    (q : Session Ends) × (stream_handle peer file_disk limits 10 (codes "tmp-0000-0000") 5 session
      ≡ result success (keep_path (codes "tmp-0000-0000") q))
    × (q.world.1 ≡ codes "abcde")
    × (q.client.buffer ++ q.world.0 ≡ codes "f")
stream_handle-copies_example =
    stream_handle-copies peer file_disk limits (λ w. w.0) (λ p w. w.1) wire-IsPlainStream
      (omega arith) 10 5 (codes "tmp-0000-0000") session refl refl refl (omega arith) (omega arith)
      (omega arith)

raw_handle-IsPlainAnswer_example :
    IsPlainAnswer (raw_handle peer file_disk limits (some (codes "3")) (λ text. some 3) session)
raw_handle-IsPlainAnswer_example =
    raw_handle-IsPlainAnswer peer file_disk limits (some (codes "3")) (λ text. some 3) session

-- The limits and the buffer of a default configuration.
abbrev default_limits : Limits
default_limits = record { max_request_size = 104857600; chunk_size = 131072 }

abbrev default_session : Session Ends
default_session = record {
  client = record (new_client 65536) { buffer = codes "ab" };
  world = (codes "cdef", []);
}

stream_handle-IsServerError_example :
    IsServerError
      (stream_handle peer file_disk default_limits 20 (codes "tmp-0000-0000") 5 default_session)
stream_handle-IsServerError_example =
    stream_handle-IsServerError peer file_disk default_limits 18 5 (codes "tmp-0000-0000")
      default_session (omega arith) (omega arith)
