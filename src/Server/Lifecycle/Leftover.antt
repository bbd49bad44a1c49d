-- ===== src/Server/Lifecycle/Leftover.antt =====
-- clueapi/server/impl/server.cxx: the queue that a failed start leaves to the next one.
use clueapi.Base.{
  ℕ, zero, suc, ◌<◌, ◌≡◌, ◌∙◌, refl, sym, ap, subst, inl, inr, Bool, true, false, not, List, [],
  ◌∷◌, ◌++◌, none, some, arith, length, ◌==◌, if◌then◌else◌, if-split, Bool-cases, Option-cases,
}
use clueapi.Server.Client.{Client, new_client}
use clueapi.Server.Pool.{
  Clients, get_client, make_clients, init_clients, push, acquire_client, acquire_attempts, freed,
}
use clueapi.Server.Connections.Exclusive.{owned, owned-append}
use clueapi.Server.Lifecycle.{
  stopped, running, Settings, Impl, World, Ended, done, threw, StartResult, started, failed,
  not_stopped, setup_acceptor, configure_acceptor, start_accept_loops, spawn_loops,
  destroy_acceptor, make_pool, next_stage, settle, start, is_stopped, acceptor_count, starting,
}
use clueapi.Server.Lifecycle.Restart.{IsReady, IsStarted, start-IsStarted}

-- The first entry of the queue is a client with an old number, that the storage lists `k` times.
record IsStale (k id : ℕ) (cs : Clients) : Type 0 where
  pub ahead : (queue : List ℕ) × (cs.queue ≡ id ∷ queue)
  pub old : id < cs.next_id
  pub gone : owned id cs.storage ≡ k

owned-get_client : (id : ℕ) (m : List (ℕ × Client)) → owned id m ≡ 0 → get_client id m ≡ none
unfolding owned get_client
owned-get_client id [] h = refl
owned-get_client id ((i, c) ∷ m) h = ground (arith, owned-get_client id m)

module _ (room : List ℕ → Bool) where
  one-IsStale :
      (k id : ℕ) (cs : Clients) (c : Client)
      → IsStale k id cs
      → IsStale k id (record {
        storage = cs.storage ++ (cs.next_id, c) ∷ [];
        queue = cs.queue ++ cs.next_id ∷ [];
        next_id = suc cs.next_id;
      })
  unfolding owned
  one-IsStale k id cs c h = record {
    ahead = (h.ahead.0 ++ cs.next_id ∷ [], ap (λ q. q ++ cs.next_id ∷ []) h.ahead.1);
    old = omega (arith, h.old);
    gone = ground (arith, h.old, h.gone, owned-append id cs.storage ((cs.next_id, c) ∷ []));
  }

  skip-IsStale :
      (k id : ℕ) (cs : Clients)
      → IsStale k id cs
      → IsStale k id (record cs { next_id = suc cs.next_id })
  skip-IsStale k id cs h = record { ahead = h.ahead; old = omega (arith, h.old); gone = h.gone }

  make_clients-IsStale :
      (n size k id : ℕ) (made : ℕ → Bool) (cs : Clients)
      → IsStale k id cs
      → IsStale k id (make_clients room n size made cs)
  unfolding make_clients push
  make_clients-IsStale zero size k id made cs h = h
  make_clients-IsStale (suc n) size k id made cs h = elim (Bool-cases (made cs.next_id)) [
    | inr e ↦
        rw (make_clients, e) (make_clients-IsStale n size k id made _ (skip-IsStale k id cs h))
    | inl e ↦ elim (Bool-cases (room cs.queue)) [
      | inl r ↦
          rw (make_clients, e, r)
            (make_clients-IsStale n size k id made _ (one-IsStale k id cs (new_client size) h))
      | inr r ↦ rw (make_clients, e, r) (skip-IsStale k id cs h)
    ]
  ]

  -- The first client that can be acquired is gone.
  acquire_client-stale :
      (id : ℕ) (cs : Clients) → IsStale 0 id cs → (acquire_client room cs).0 ≡ freed
  unfolding acquire_client acquire_attempts
  acquire_client-stale id cs h =
      let none_there : get_client id cs.storage ≡ none = owned-get_client id cs.storage h.gone in
      rw (acquire_client, acquire_attempts, h.ahead.1, none_there) refl

-- Both ends of an operation keep a property of the pool.
abbrev Always : (Clients → Type 0) → Ended → Type 0
Always P (done a) = P a.serving.clients
Always P (threw a) = P a.serving.clients

next_stage-Always :
    (P : Clients → Type 0) (e : Ended) (k : Impl → Ended)
    → Always P e
    → ((a : Impl) → P a.serving.clients → Always P (k a))
    → Always P (next_stage e k)
unfolding next_stage
next_stage-Always P (done a) k h f = f a h
next_stage-Always P (threw a) k h f = h

kept_clients : (a : Impl) → (destroy_acceptor a).serving.clients ≡ a.serving.clients
unfolding destroy_acceptor
kept_clients a = ground arith

settle-Always : (P : Clients → Type 0) (e : Ended) → Always P e → P (settle e).0.serving.clients
unfolding settle destroy_acceptor
settle-Always P (done a) h = h
settle-Always P (threw a) h = subst P (sym (kept_clients a)) h

configure_acceptor-Always :
    (P : Clients → Type 0) (w : World) (a : Impl)
    → P a.serving.clients
    → Always P (configure_acceptor w a)
unfolding configure_acceptor
configure_acceptor-Always P w a h =
    if-split (Always P) (not w.opens) (λ _. h)
      (λ _.
        if-split (Always P) (not w.binds) (λ _. h)
          (λ _. if-split (Always P) (not w.listens) (λ _. h) (λ _. h)))

setup_acceptor-Always :
    (P : Clients → Type 0) (w : World) (a : Impl)
    → P a.serving.clients
    → Always P (setup_acceptor w a)
unfolding setup_acceptor
setup_acceptor-Always P w a h = elim (Option-cases a.acceptor) [
  | inr (o, e) ↦ rw (Always, setup_acceptor, e) h
  | inl e ↦
      rw (Always, setup_acceptor, e)
        (if-split (Always P) (not w.port_available) (λ _. h)
          (λ _.
            if-split (Always P) (not w.address) (λ _. h)
              (λ _.
                if-split (Always P) (not w.port) (λ _. h)
                  (λ _.
                    if-split (Always P) (not w.acceptor_ctx) (λ _. h)
                      (λ _.
                        configure_acceptor-Always P w (record a { acceptor = some false }) h)))))
]

spawn_loops-Always :
    (P : Clients → Type 0) (n i : ℕ) (next_ctx : ℕ → Bool) (a : Impl)
    → P a.serving.clients
    → Always P (spawn_loops n i next_ctx a)
unfolding spawn_loops
spawn_loops-Always P zero i next_ctx a h = h
spawn_loops-Always P (suc n) i next_ctx a h =
    if-split (Always P) (next_ctx i)
      (λ _. spawn_loops-Always P n (suc i) next_ctx (record a { loops = suc a.loops }) h) (λ _. h)

start_accept_loops-Always :
    (P : Clients → Type 0) (cfg : Settings) (w : World) (a : Impl)
    → P a.serving.clients
    → Always P (start_accept_loops cfg w a)
unfolding start_accept_loops
start_accept_loops-Always P cfg w a h = elim (Option-cases a.acceptor) [
  | inl e ↦ rw (Always, start_accept_loops, e) h
  | inr (o, e) ↦
      rw (Always, start_accept_loops, e)
        (if-split (Always P) (not w.first_ctx) (λ _. h)
          (λ _.
            if-split (Always P) cfg.reuse_port
              (λ _.
                spawn_loops-Always P (acceptor_count cfg.workers) 0 w.next_ctx
                  (record a { state = running }) h)
              (λ _. h)))
]

stopped_by : (r : Impl × StartResult) → IsStarted r → r.1 ≡ failed → r.0.state ≡ stopped
stopped_by (a, started) h e = ground arith
stopped_by (a, failed) h e = h.0
stopped_by (a, not_stopped) h e = absurd h

module _ (room : List ℕ → Bool) (cfg : Settings) where
  make_pool-Always :
      (P : Clients → Type 0) (w : World) (a : Impl)
      → P (init_clients room cfg.max_connections cfg.buffer_capacity w.made a.serving.clients).1
      → Always P (make_pool room cfg w a)
  unfolding make_pool
  make_pool-Always P w a h =
      if-split (Always P)
        (init_clients room cfg.max_connections cfg.buffer_capacity w.made a.serving.clients).0
        (λ _. h) (λ _. h)

  -- A start leaves the pool as `init_clients` makes it, also where it fails.
  start-pool :
      (P : Clients → Type 0) (w : World) (a : Impl)
      → a.state ≡ stopped
      → P (init_clients room cfg.max_connections cfg.buffer_capacity w.made a.serving.clients).1
      → P (start room cfg w a).0.serving.clients
  unfolding start is_stopped
  start-pool P w a e h =
      if-split (λ (r : Impl × StartResult). P r.0.serving.clients) (is_stopped a.state)
        (λ _. settle-Always P _ (
          next_stage-Always P (make_pool room cfg w (record a { state = starting })) _
            (make_pool-Always P w (record a { state = starting }) h)
            (λ b k.
              next_stage-Always P (setup_acceptor w b) _ (setup_acceptor-Always P w b k)
                (λ c l. start_accept_loops-Always P cfg w c l))))
        (λ f. ground arith)

  failed_at_rest :
      (w : World) (a : Impl)
      → IsReady a
      → (start room cfg w a).1 ≡ failed
      → (start room cfg w a).0.state ≡ stopped
  failed_at_rest w a h e = stopped_by (start room cfg w a) (start-IsStarted room cfg w a h) e

  init_clients-pool :
      (n size : ℕ) (made : ℕ → Bool) (cs : Clients)
      → (init_clients room (suc n) size made cs).1
        ≡ make_clients room (suc n) size made (record cs { storage = [] })
  unfolding init_clients
  init_clients-pool n size made cs =
      let pool = make_clients room (suc n) size made (record cs { storage = [] }) in
      let some_wanted : (suc n == 0) ≡ false = ground arith in
      ap
        (λ (b : Bool).
          (if◌then◌else◌ {A = Bool × Clients} b (false, cs)
            (not (length pool.storage == 0), pool)).1)
        some_wanted

  first-IsStale :
      (id size : ℕ) (queue : List ℕ)
      → queue ≡ []
      → IsStale 1 id (record {
        storage = (id, new_client size) ∷ [];
        queue = queue ++ id ∷ [];
        next_id = suc id;
      })
  unfolding owned
  first-IsStale id size queue e = record {
    ahead = ([], ap (λ q. q ++ id ∷ []) e);
    old = omega arith;
    gone = ground arith;
  }

  -- The first start makes a client, and the queue begins with it.
  init_clients-first :
      (n size : ℕ) (made : ℕ → Bool) (cs : Clients)
      → cs.queue ≡ []
      → room [] ≡ true
      → made cs.next_id ≡ true
      → IsStale 1 cs.next_id (init_clients room (suc n) size made cs).1
  unfolding make_clients push
  init_clients-first n size made cs e r m =
      let takes : room cs.queue ≡ true = ap room e ∙ r in
      subst (IsStale 1 cs.next_id) (sym (init_clients-pool n size made cs)) (
        rw (make_clients, m, takes)
          (make_clients-IsStale room n size 1 cs.next_id made _
            (first-IsStale cs.next_id size cs.queue e)))

  init_clients-again :
      (n size id k : ℕ) (made : ℕ → Bool) (cs : Clients)
      → IsStale k id cs
      → IsStale 0 id (init_clients room (suc n) size made cs).1
  unfolding owned
  init_clients-again n size id k made cs h =
      subst (IsStale 0 id) (sym (init_clients-pool n size made cs)) (
        make_clients-IsStale room (suc n) size 0 id made (record cs { storage = [] })
          (record { ahead = h.ahead; old = h.old; gone = refl }))

  -- A defect: where a server that is ready has made a client and its start fails all the same, then
  -- after another start the first client that a connection would be given is one that was freed.
  pub start-leftover :
      (n : ℕ) (w v : World) (a : Impl)
      → cfg.max_connections ≡ suc n
      → room [] ≡ true
      → w.made a.serving.clients.next_id ≡ true
      → IsReady a
      → (start room cfg w a).1 ≡ failed
      → (acquire_client room (start room cfg v (start room cfg w a).0).0.serving.clients).0 ≡ freed
  start-leftover n w v a size r m h e =
      let b = (start room cfg w a).0 in
      let left = start-pool (IsStale 1 a.serving.clients.next_id) w a h.at_rest (
        subst
          (λ k.
            IsStale 1 a.serving.clients.next_id
              (init_clients room k cfg.buffer_capacity w.made a.serving.clients).1)
          (sym size)
          (init_clients-first n cfg.buffer_capacity w.made a.serving.clients h.unqueued r m)) in
      acquire_client-stale room a.serving.clients.next_id _ (
        start-pool (IsStale 0 a.serving.clients.next_id) v b (failed_at_rest w a h e) (
          subst
            (λ k.
              IsStale 0 a.serving.clients.next_id
                (init_clients room k cfg.buffer_capacity v.made b.serving.clients).1)
            (sym size)
            (init_clients-again n cfg.buffer_capacity a.serving.clients.next_id 1 v.made
              b.serving.clients left)))
