-- ===== src/Server/Pool.antt =====
-- clueapi/server/impl/server.cxx: the clients that the server owns, and the queue of those that no
-- connection uses. A pointer to a client is its number; a number that the storage does not list
-- points to a client that was freed.
use clueapi.Base.{
  ℕ, zero, suc, Bool, false, not, List, [], ◌∷◌, ◌++◌, Option, none, some, length, ◌==◌,
  if◌then◌else◌,
}
use clueapi.Server.Client.{Client, new_client, is_ready_for_reuse, return_to_pool}

-- `m_clients_storage`, `m_clients`, and the number of the next client that is made.
pub record Clients : Type 0 where
  pub storage : List (ℕ × Client)
  pub queue : List ℕ
  pub next_id : ℕ

unfoldable pub get_client : ℕ → List (ℕ × Client) → Option Client
get_client id [] = none
get_client id ((i, c) ∷ m) = if i == id then some c else get_client id m

unfoldable pub set_client : ℕ → Client → List (ℕ × Client) → List (ℕ × Client)
set_client id d [] = []
set_client id d ((i, c) ∷ m) =
    let rest = set_client id d m in if i == id then (i, d) ∷ rest else (i, c) ∷ rest

-- What `acquire_client` ends with; `freed` is an access to a client that is gone.
pub data Acquired : Type 0 where
  client : ℕ → Acquired
  no_client : Acquired
  freed : Acquired

-- `room` says whether the queue takes one more; it does not where memory is out.
module _ (room : List ℕ → Bool) where
  -- `m_clients.push`; a failure is logged.
  unfoldable pub push : ℕ → Clients → Clients
  push id s = if room s.queue then record s { queue = s.queue ++ id ∷ [] } else s

  -- `return_to_pool`, and the queue if the client is ready.
  unfoldable pub clean_up : ℕ → Client → Clients → Clients
  unfolding push return_to_pool is_ready_for_reuse
  clean_up id c s =
      let d = return_to_pool c in
      let q = record s { storage = set_client id d s.storage } in
      if is_ready_for_reuse d then push id q else q

  -- `while (attempts < k_max_attempts && m_clients.pop(client))`, with the attempts left.
  unfoldable pub acquire_attempts : ℕ → Clients → Acquired × Clients
  unfolding clean_up get_client is_ready_for_reuse
  acquire_attempts zero s = (no_client, s)
  acquire_attempts (suc left) s = elim s.queue [
    | [] ↦ (no_client, s)
    | id ∷ queue ↦ elim (get_client id s.storage) [
      | none ↦ (freed, record s { queue = queue })
      | some c ↦
          let rest = acquire_attempts left (clean_up id c (record s { queue = queue })) in
          if is_ready_for_reuse c then (client id, record s { queue = queue }) else rest
    ]
  ]

  unfoldable pub acquire_client : Clients → Acquired × Clients
  unfolding acquire_attempts
  acquire_client s = acquire_attempts 3 s

  -- `none` is an access to a client that is gone.
  unfoldable pub release_client : ℕ → Clients → Option Clients
  unfolding clean_up get_client
  release_client id s = elim (get_client id s.storage) [
    | none ↦ none
    | some c ↦ some (clean_up id c s)
  ]

  -- The loop that makes the clients; `made` says which of them can be made.
  unfoldable pub make_clients : ℕ → ℕ → (ℕ → Bool) → Clients → Clients
  unfolding push
  make_clients zero buffer_size made s = s
  make_clients (suc n) buffer_size made s =
      let fresh = record s { next_id = suc s.next_id } in
      let one = record fresh { storage = s.storage ++ (s.next_id, new_client buffer_size) ∷ [] } in
      if not (made s.next_id)
      then make_clients n buffer_size made fresh
      else if room s.queue
      then make_clients n buffer_size made (push s.next_id one)
      else fresh

  -- Whether there are clients, and the pool; without clients it throws.
  unfoldable pub init_clients : ℕ → ℕ → (ℕ → Bool) → Clients → Bool × Clients
  unfolding make_clients
  init_clients num_clients buffer_size made s =
      let made_clients = make_clients num_clients buffer_size made (record s { storage = [] }) in
      if num_clients == 0
      then (false, s)
      else (not (length made_clients.storage == 0), made_clients)

-- The loop over the storage in `destroy_clients`.
unfoldable pub return_all : List (ℕ × Client) → List (ℕ × Client)
unfolding return_to_pool is_ready_for_reuse
return_all [] = []
return_all ((i, c) ∷ m) =
    let rest = return_all m in
    if is_ready_for_reuse c then (i, c) ∷ rest else (i, return_to_pool c) ∷ rest

-- `destroy_clients` once the wait is over: the queue is emptied, and the clients are freed.
unfoldable pub free_all : Clients → Clients
free_all s = record s { storage = []; queue = [] }
