-- ===== src/Server/Connections/Exclusive.antt =====
-- clueapi/server/impl/server.cxx: no two handlers share a client, and none uses a freed one.
use clueapi.Base.{
  ℕ, zero, suc, ◌+◌, ◌-◌, ◌%◌, not, ◌≤◌, ◌≡◌, refl, sym, ap, inl, inr, Bool, true, List, [], ◌∷◌,
  ◌++◌, Option, none, some, arith, length, ◌==◌, if◌then◌else◌, subst, Option-cases, if-split,
}
use clueapi.Shared.Split.{size_mod}
use clueapi.Server.Client.{Client, prepare_for_connection, is_ready_for_reuse, return_to_pool}
use clueapi.Server.Pool.{
  Clients, get_client, set_client, acquire_client, acquire_attempts, release_client, client,
  no_client, freed, push, clean_up, Acquired,
}
use clueapi.Server.Connections.{
  Serving, Event, connects, breaks, ends, break_off, fetch_add, fetch_sub, has, remove, released,
  begin_session, connect, finish, step, run,
}

-- How often a number is in a list, and in a storage.
unfoldable pub count : ℕ → List ℕ → ℕ
count id [] = 0
count id (i ∷ l) = let rest = count id l in if i == id then suc rest else rest

unfoldable pub owned : ℕ → List (ℕ × Client) → ℕ
owned id [] = 0
owned id ((i, c) ∷ m) = let rest = owned id m in if i == id then suc rest else rest

-- Each client is in the queue or with one handler, once, and belongs to the storage.
pub record IsExclusive (cs : Clients) (held : List ℕ) : Type 0 where
  pub once : (id : ℕ) → owned id cs.storage ≤ 1
  pub theirs : (id : ℕ) → count id cs.queue + count id held ≤ owned id cs.storage

pub count-append : (id : ℕ) (l r : List ℕ) → count id (l ++ r) ≡ count id l + count id r
unfolding count
count-append id [] r = omega arith
count-append id (i ∷ l) r = ground (arith, count-append id l r)

pub owned-append : (id : ℕ) (m n : List (ℕ × Client)) → owned id (m ++ n) ≡ owned id m + owned id n
unfolding owned
owned-append id [] n = omega arith
owned-append id ((i, c) ∷ m) n = ground (arith, owned-append id m n)

owned-set_client :
    (id j : ℕ) (d : Client) (m : List (ℕ × Client)) → owned id (set_client j d m) ≡ owned id m
unfolding owned set_client
owned-set_client id j d [] = refl
owned-set_client id j d ((i, c) ∷ m) = ground (arith, owned-set_client id j d m)

get_client-owned : (id : ℕ) (m : List (ℕ × Client)) → get_client id m ≡ none → owned id m ≡ 0
unfolding owned get_client
get_client-owned id [] h = refl
get_client-owned id ((i, c) ∷ m) h = ground (arith, get_client-owned id m)

count-remove :
    (id j : ℕ) (l : List ℕ)
    → has j l ≡ true
    → count id (remove j l) + count id (j ∷ []) ≡ count id l
unfolding count remove has
count-remove id j [] h = ground arith
count-remove id j (i ∷ l) h = ground (arith, count-remove id j l)

set_client-IsExclusive :
    (j : ℕ) (d : Client) (cs : Clients) (held : List ℕ)
    → IsExclusive cs held
    → IsExclusive (record cs { storage = set_client j d cs.storage }) held
set_client-IsExclusive j d cs held h = record {
  once = λ id. omega (arith, h.once id, owned-set_client id j d cs.storage);
  theirs = λ id. omega (arith, h.theirs id, owned-set_client id j d cs.storage);
}

-- A client that is not held any more, and not in the queue, is lost to the pool.
lost-IsExclusive :
    (j : ℕ) (cs : Clients) (held : List ℕ) → IsExclusive cs (j ∷ held) → IsExclusive cs held
unfolding count
lost-IsExclusive j cs held h = record { once = h.once; theirs = λ id. ground (arith, h.theirs id) }

queued-IsExclusive :
    (j : ℕ) (cs : Clients) (held : List ℕ)
    → IsExclusive cs (j ∷ held)
    → IsExclusive (record cs { queue = cs.queue ++ j ∷ [] }) held
unfolding count
queued-IsExclusive j cs held h = record {
  once = h.once;
  theirs = λ id. ground (arith, h.theirs id, count-append id cs.queue (j ∷ []));
}

popped-IsExclusive :
    (j : ℕ) (queue : List ℕ) (cs : Clients) (held : List ℕ)
    → cs.queue ≡ j ∷ queue
    → IsExclusive cs held
    → IsExclusive (record cs { queue = queue }) (j ∷ held)
unfolding count
popped-IsExclusive j queue cs held e h = record {
  once = h.once;
  theirs = λ id. ground (arith, h.theirs id, ap (count id) e);
}

-- A client that is held belongs to the storage.
held-get_client :
    (j : ℕ) (cs : Clients) (held : List ℕ)
    → IsExclusive cs (j ∷ held)
    → (c : Client) × (get_client j cs.storage ≡ some c)
unfolding count
held-get_client j cs held h = elim (Option-cases (get_client j cs.storage)) [
  | inl e ↦ absurd (ground (arith, h.theirs j, get_client-owned j cs.storage e))
  | inr found ↦ found
]

-- The counter of active connections where `n` handlers wait: it is short by those that an exception
-- ended before they had counted their connection, as a `std::size_t` has it.
abbrev pub counter : ℕ → ℕ → ℕ
counter n missed = (n + (size_mod - missed % size_mod)) % size_mod

-- Each client has one place, and the counter is the number of handlers that wait, less those that
-- were missed.
pub record IsServing (s : Serving) : Type 0 where
  pub exclusive : IsExclusive s.clients s.busy
  pub counted : s.active ≡ counter (length s.busy) s.missed

-- A step was made without a client that is gone, and leaves the server sound.
abbrev pub GoesOn : Option Serving → Type 0
GoesOn none = ⊥
GoesOn (some s) = IsServing s

fetch_add-counted : (a n m : ℕ) → a ≡ counter n m → fetch_add a ≡ counter (suc n) m
unfolding fetch_add
fetch_add-counted a n m e = omega (arith, e)

fetch_sub-counted : (a n m : ℕ) → a ≡ counter (suc n) m → fetch_sub a ≡ counter n m
unfolding fetch_sub
fetch_sub-counted a n m e = omega (arith, e)

fetch_sub-missed : (a n m : ℕ) → a ≡ counter n m → fetch_sub a ≡ counter n (suc m)
unfolding fetch_sub
fetch_sub-missed a n m e = omega (arith, e)

length-remove : (j : ℕ) (l : List ℕ) → has j l ≡ true → length l ≡ suc (length (remove j l))
unfolding remove has
length-remove j [] h = ground arith
length-remove j (i ∷ l) h = ground (arith, length-remove j l)

module _ (room : List ℕ → Bool) where
  push-IsExclusive :
      (j : ℕ) (cs : Clients) (held : List ℕ)
      → IsExclusive cs (j ∷ held)
      → IsExclusive (push room j cs) held
  unfolding push
  push-IsExclusive j cs held h =
      if-split (λ (x : Clients). IsExclusive x held) (room cs.queue)
        (λ _. queued-IsExclusive j cs held h) (λ _. lost-IsExclusive j cs held h)

  -- A client that is held is cleaned and goes back, where the queue takes it.
  clean_up-IsExclusive :
      (j : ℕ) (c : Client) (cs : Clients) (held : List ℕ)
      → IsExclusive cs (j ∷ held)
      → IsExclusive (clean_up room j c cs) held
  unfolding clean_up
  clean_up-IsExclusive j c cs held h =
      let d = return_to_pool c in
      let q = record cs { storage = set_client j d cs.storage } in
      let k = set_client-IsExclusive j d cs (j ∷ held) h in
      if-split (λ (x : Clients). IsExclusive x held) (is_ready_for_reuse d)
        (λ _. push-IsExclusive j q held k) (λ _. lost-IsExclusive j q held k)

  -- What is acquired is held by nobody else, and no client that is gone was met.
  abbrev Holds : Acquired × Clients → List ℕ → Type 0
  Holds (client j, cs) held = IsExclusive cs (j ∷ held)
  Holds (no_client, cs) held = IsExclusive cs held
  Holds (freed, cs) held = ⊥

  acquire_attempts-some :
      (left id next : ℕ) (c : Client) (storage : List (ℕ × Client)) (queue : List ℕ)
      → get_client id storage ≡ some c
      → acquire_attempts room
          (suc left)
          (record { storage = storage; queue = id ∷ queue; next_id = next })
        ≡ (if is_ready_for_reuse c
            then (client id, record { storage = storage; queue = queue; next_id = next })
            else acquire_attempts room left
                (clean_up room id c (record { storage = storage; queue = queue; next_id = next })))
  unfolding acquire_attempts
  acquire_attempts-some left id next c storage queue e = rw (acquire_attempts, e) refl

  acquire_attempts-Holds :
      (left next : ℕ) (storage : List (ℕ × Client)) (queue held : List ℕ)
      → IsExclusive (record { storage = storage; queue = queue; next_id = next }) held
      → Holds
          (acquire_attempts room left (record { storage = storage; queue = queue; next_id = next }))
          held
  unfolding acquire_attempts
  acquire_attempts-Holds zero next storage queue held h = h
  acquire_attempts-Holds (suc left) next storage [] held h = h
  acquire_attempts-Holds (suc left) next storage (id ∷ queue) held h =
      let k = popped-IsExclusive id queue _ held refl h in
      let (c, e) = held-get_client id _ held k in
      let q = clean_up room id c (record { storage = storage; queue = queue; next_id = next }) in
      subst (λ r. Holds r held) (sym (acquire_attempts-some left id next c storage queue e))
        (if-split (λ (r : Acquired × Clients). Holds r held) (is_ready_for_reuse c) (λ _. k)
          (λ _.
            acquire_attempts-Holds left q.next_id q.storage q.queue held
              (clean_up-IsExclusive id c _ held k)))

  released-GoesOn :
      (j : ℕ) (s : Serving)
      → IsExclusive s.clients (j ∷ s.busy)
      → s.active ≡ counter (length s.busy) s.missed
      → GoesOn (released room j s)
  unfolding released release_client
  released-GoesOn j s h k =
      let (c, e) = held-get_client j s.clients s.busy h in
      rw (released, release_client, e)
        (record { exclusive = clean_up-IsExclusive j c s.clients s.busy h; counted = k })

  begin_session-GoesOn :
      (is_open throws : Bool) (j : ℕ) (s : Serving)
      → IsExclusive s.clients (j ∷ s.busy)
      → s.active ≡ counter (length s.busy) s.missed
      → GoesOn (begin_session room is_open throws j s)
  unfolding begin_session
  begin_session-GoesOn is_open throws j s h k =
      let (c, e) = held-get_client j s.clients s.busy h in
      let d = (prepare_for_connection is_open throws c).1 in
      let x = set_client-IsExclusive j d s.clients (j ∷ s.busy) h in
      rw (begin_session, e)
        (if-split GoesOn (prepare_for_connection is_open throws c).0
          (λ _. record {
            exclusive = x;
            counted = fetch_add-counted s.active (length s.busy) s.missed k;
          })
          (λ _.
            released-GoesOn j
              (record s {
                clients = record s.clients { storage = set_client j d s.clients.storage };
              })
              x k))

  connect-GoesOn :
      (is_open throws : Bool) (s : Serving) → IsServing s → GoesOn (connect room is_open throws s)
  unfolding connect acquire_client
  connect-GoesOn is_open throws s h = given (acquire_client room s.clients) (
      acquire_attempts-Holds 3 s.clients.next_id s.clients.storage s.clients.queue s.busy
        h.exclusive)
    where
      given :
          (r : Acquired × Clients)
          → Holds r s.busy
          → GoesOn (elim r.0 as (λ _. Option Serving) [
            | client id ↦
                begin_session room is_open throws id
                  (record s { clients = r.1; total = fetch_add s.total })
            | no_client ↦ some (record s { clients = r.1; total = fetch_add s.total })
            | freed ↦ none
          ])
      given (client id, cs) k =
          begin_session-GoesOn is_open throws id
            (record s { clients = cs; total = fetch_add s.total }) k h.counted
      given (no_client, cs) k = record { exclusive = k; counted = h.counted }
      given (freed, cs) k = absurd k

  break_off-GoesOn :
      (acquires : Bool) (s : Serving) → IsServing s → GoesOn (break_off room acquires s)
  unfolding break_off acquire_client
  break_off-GoesOn acquires s h =
      let short = fetch_sub-missed s.active (length s.busy) s.missed h.counted in
      let off : Serving = record s {
        total = fetch_add s.total;
        active = fetch_sub s.active;
        missed = suc s.missed;
      } in
      if-split GoesOn (not acquires) (λ _. record { exclusive = h.exclusive; counted = short })
        (λ _. given off short (acquire_client room s.clients) (
          acquire_attempts-Holds 3 s.clients.next_id s.clients.storage s.clients.queue s.busy
            h.exclusive))
    where
      given :
          (off : Serving)
          → off.active ≡ counter (length s.busy) off.missed
          → (r : Acquired × Clients) → Holds r s.busy
          → GoesOn (elim r.0 as (λ _. Option Serving) [
            | client id ↦ released room id (record off { clients = r.1; busy = s.busy })
            | no_client ↦ some (record s { total = fetch_add s.total; clients = r.1 })
            | freed ↦ none
          ])
      given off short (client id, cs) k =
          released-GoesOn id (record off { clients = cs; busy = s.busy }) k short
      given off short (no_client, cs) k = record { exclusive = k; counted = h.counted }
      given off short (freed, cs) k = absurd k

  finish-GoesOn :
      (j : ℕ) (s : Serving) → IsServing s → has j s.busy ≡ true → GoesOn (finish room j s)
  unfolding finish count
  finish-GoesOn j s h e =
      released-GoesOn j (record s { active = fetch_sub s.active; busy = remove j s.busy })
        (record {
          once = h.exclusive.once;
          theirs = λ id. ground (arith, h.exclusive.theirs id, count-remove id j s.busy e);
        })
        (fetch_sub-counted s.active (length (remove j s.busy)) s.missed
          (omega (arith, h.counted, length-remove j s.busy e)))

  pub step-GoesOn : (s : Serving) (e : Event) → IsServing s → GoesOn (step room s e)
  unfolding step
  step-GoesOn s (connects is_open throws) h = connect-GoesOn is_open throws s h
  step-GoesOn s (breaks acquires) h = break_off-GoesOn acquires s h
  step-GoesOn s (ends j) h = if-split GoesOn (has j s.busy) (λ e. finish-GoesOn j s h e) (λ _. h)

  -- From a sound server, whatever connections come, whichever handlers break off, and whichever
  -- sessions end, in any order: no handler meets a client that was freed, no client is with two
  -- handlers or with a handler and in the queue, and the counter of active connections is the number
  -- of handlers that wait for their sessions, less one for each that an exception ended before it had
  -- counted its connection, and wraps below 0.
  pub run-GoesOn : (es : List Event) (s : Serving) → IsServing s → GoesOn (run room es s)
  unfolding run
  run-GoesOn [] s h = h
  run-GoesOn (e ∷ es) s h = later (step room s e) (step-GoesOn s e h) (λ q k. run-GoesOn es q k)
    where
      later :
          (o : Option Serving)
          → GoesOn o
          → ((q : Serving) → IsServing q → GoesOn (run room es q))
          → GoesOn (elim o as (λ _. Option Serving) [ none ↦ none | some q ↦ run room es q ])
      later none h ih = absurd h
      later (some q) h ih = ih q h
