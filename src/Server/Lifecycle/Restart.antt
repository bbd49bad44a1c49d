-- ===== src/Server/Lifecycle/Restart.antt =====
-- clueapi/server/impl/server.cxx: what a start leaves behind, and what a stop does.
use clueapi.Base.{
  ℕ, zero, suc, ◌≤◌, ◌≡◌, refl, ap, inl, inr, Bool, true, false, not, List, [], ◌∷◌, ◌++◌, none,
  some, arith, length, ◌==◌, if-split, Bool-cases,
}
use clueapi.Server.Client.{Client, new_client}
use clueapi.Server.Pool.{Clients, make_clients, init_clients, push}
use clueapi.Server.Connections.Exclusive.{
  counter, count, owned, IsExclusive, IsServing, count-append, owned-append,
}
use clueapi.Server.Lifecycle.{
  stopped, starting, running, Settings, Impl, World, Ended, done, threw, StartResult, started,
  failed, not_stopped, setup_acceptor, configure_acceptor, start_accept_loops, spawn_loops,
  destroy_acceptor, make_pool, next_stage, settle, start, is_stopped, acceptor_count,
}

-- While clients are made, each is in the queue once, and the next number is new.
record IsMaking (cs : Clients) : Type 0 where
  pub same : (id : ℕ) → count id cs.queue ≡ owned id cs.storage
  pub once : (id : ℕ) → owned id cs.storage ≤ 1
  pub fresh : (id : ℕ) → cs.next_id ≤ id → owned id cs.storage ≡ 0

none_made : (cs : Clients) → cs.queue ≡ [] → IsMaking (record cs { storage = [] })
unfolding count owned
none_made cs e = record {
  same = λ id. ap (count id) e;
  once = λ id. omega arith;
  fresh = λ id le. refl;
}

nobody : {held : List ℕ} (id : ℕ) → held ≡ [] → count id held ≡ 0
unfolding count
nobody id e = ap (count id) e

module _ (room : List ℕ → Bool) where
  one-IsMaking :
      (cs : Clients) (c : Client)
      → IsMaking cs
      → IsMaking (record {
        storage = cs.storage ++ (cs.next_id, c) ∷ [];
        queue = cs.queue ++ cs.next_id ∷ [];
        next_id = suc cs.next_id;
      })
  unfolding count owned
  one-IsMaking cs c h = record {
    same = λ id. ground (
      arith,
      h.same id,
      count-append id cs.queue (cs.next_id ∷ []),
      owned-append id cs.storage ((cs.next_id, c) ∷ []),
    );
    once = λ id.
        ground (arith, h.once id, h.fresh id, owned-append id cs.storage ((cs.next_id, c) ∷ []));
    fresh =
        λ id le. ground (arith, le, h.fresh id, owned-append id cs.storage ((cs.next_id, c) ∷ []));
  }

  skip-IsMaking : (cs : Clients) → IsMaking cs → IsMaking (record cs { next_id = suc cs.next_id })
  skip-IsMaking cs h = record {
    same = h.same;
    once = h.once;
    fresh = λ id le. h.fresh id (omega (arith, le));
  }

  make_clients-IsMaking :
      (n size : ℕ) (made : ℕ → Bool) (cs : Clients)
      → IsMaking cs
      → IsMaking (make_clients room n size made cs)
  unfolding make_clients push
  make_clients-IsMaking zero size made cs h = h
  make_clients-IsMaking (suc n) size made cs h = elim (Bool-cases (made cs.next_id)) [
    | inr e ↦ rw (make_clients, e) (make_clients-IsMaking n size made _ (skip-IsMaking cs h))
    | inl e ↦ elim (Bool-cases (room cs.queue)) [
      | inl r ↦
          rw (make_clients, e, r)
            (make_clients-IsMaking n size made _ (one-IsMaking cs (new_client size) h))
      | inr r ↦ rw (make_clients, e, r) (skip-IsMaking cs h)
    ]
  ]

  -- The clients that were made are in the queue, each once, where the queue was empty.
  init_clients-IsMaking :
      (n size : ℕ) (made : ℕ → Bool) (cs : Clients)
      → cs.queue ≡ []
      → (init_clients room n size made cs).0 ≡ true
      → IsMaking (init_clients room n size made cs).1
  unfolding init_clients
  init_clients-IsMaking n size made cs e =
      if-split (λ (r : Bool × Clients). r.0 ≡ true → IsMaking r.1) (n == 0) (λ _ h. ground arith)
        (λ _ h. make_clients-IsMaking n size made (record cs { storage = [] }) (none_made cs e))

  making-IsExclusive :
      (cs : Clients) (held : List ℕ) → held ≡ [] → IsMaking cs → IsExclusive cs held
  unfolding count
  making-IsExclusive cs held e h = record {
    once = h.once;
    theirs = λ id. omega (arith, h.same id, nobody id e);
  }

-- A server that is stopped, with nothing left of earlier runs.
pub record IsReady (a : Impl) : Type 0 where
  pub at_rest : a.state ≡ stopped
  pub closed : a.acceptor ≡ none
  pub unqueued : a.serving.clients.queue ≡ []
  pub unheld : a.serving.busy ≡ []
  pub uncounted : a.serving.active ≡ counter 0 a.serving.missed

-- A server that runs, with an acceptor that is open.
pub record IsUp (a : Impl) : Type 0 where
  pub runs : a.state ≡ running
  pub accepts : a.acceptor ≡ some true
  pub sound : IsServing a.serving

-- What `start` promises of its result.
abbrev pub IsStarted : Impl × StartResult → Type 0
IsStarted (a, started) = IsUp a
IsStarted (a, failed) = (a.state ≡ stopped) × (a.acceptor ≡ none)
IsStarted (a, not_stopped) = ⊥

-- A property of the server where an operation ends without an exception.
abbrev On : (Impl → Type 0) → Ended → Type 0
On P (done a) = P a
On P (threw a) = Unit {0}

next_stage-On :
    (P Q : Impl → Type 0) (e : Ended) (k : Impl → Ended)
    → On P e
    → ((a : Impl) → P a → On Q (k a))
    → On Q (next_stage e k)
unfolding next_stage
next_stage-On P Q (done a) k h f = f a h
next_stage-On P Q (threw a) k h f = tt

settle-IsStarted : (e : Ended) → On IsUp e → IsStarted (settle e)
unfolding settle destroy_acceptor
settle-IsStarted (done a) h = h
settle-IsStarted (threw a) h = ground arith

-- Behind `init_clients`, and behind `setup_acceptor`.
abbrev HasPool : Impl → Type 0
HasPool a = (a.acceptor ≡ none) × IsServing a.serving

abbrev HasAcceptor : Impl → Type 0
HasAcceptor a = (a.acceptor ≡ some true) × IsServing a.serving

configure_acceptor-On :
    (w : World) (a : Impl) → IsServing a.serving → On HasAcceptor (configure_acceptor w a)
unfolding configure_acceptor
configure_acceptor-On w a h =
    if-split (On HasAcceptor) (not w.opens) (λ _. tt)
      (λ _.
        if-split (On HasAcceptor) (not w.binds) (λ _. tt)
          (λ _. if-split (On HasAcceptor) (not w.listens) (λ _. tt) (λ _. (refl, h))))

setup_acceptor-On : (w : World) (a : Impl) → HasPool a → On HasAcceptor (setup_acceptor w a)
unfolding setup_acceptor
setup_acceptor-On w a (e, h) =
    rw (On, setup_acceptor, e)
      (if-split (On HasAcceptor) (not w.port_available) (λ _. tt)
        (λ _.
          if-split (On HasAcceptor) (not w.address) (λ _. tt)
            (λ _.
              if-split (On HasAcceptor) (not w.port) (λ _. tt)
                (λ _.
                  if-split (On HasAcceptor) (not w.acceptor_ctx) (λ _. tt)
                    (λ _. configure_acceptor-On w (record a { acceptor = some false }) h)))))

spawn_loops-On :
    (n i : ℕ) (next_ctx : ℕ → Bool) (a : Impl) → IsUp a → On IsUp (spawn_loops n i next_ctx a)
unfolding spawn_loops
spawn_loops-On zero i next_ctx a h = h
spawn_loops-On (suc n) i next_ctx a h =
    if-split (On IsUp) (next_ctx i)
      (λ _.
        spawn_loops-On n (suc i) next_ctx (record a { loops = suc a.loops })
          (record { runs = h.runs; accepts = h.accepts; sound = h.sound }))
      (λ _. tt)

start_accept_loops-On :
    (cfg : Settings) (w : World) (a : Impl) → HasAcceptor a → On IsUp (start_accept_loops cfg w a)
unfolding start_accept_loops
start_accept_loops-On cfg w a (e, h) =
    let up : IsUp (record a { state = running }) = record { runs = refl; accepts = e; sound = h } in
    rw (On, start_accept_loops, e)
      (if-split (On IsUp) (not w.first_ctx) (λ _. tt)
        (λ _.
          if-split (On IsUp) cfg.reuse_port
            (λ _.
              spawn_loops-On (acceptor_count cfg.workers) 0 w.next_ctx
                (record a { state = running }) up)
            (λ _. record { runs = refl; accepts = e; sound = h })))

at_rest-is_stopped : (a : Impl) → a.state ≡ stopped → is_stopped a.state ≡ false → ⊥
unfolding is_stopped
at_rest-is_stopped a h e = ground arith

module _ (room : List ℕ → Bool) (cfg : Settings) where
  make_pool-On :
      (w : World) (a : Impl)
      → a.acceptor ≡ none
      → a.serving.clients.queue ≡ []
      → a.serving.busy ≡ []
      → a.serving.active ≡ counter 0 a.serving.missed
      → On HasPool (make_pool room cfg w a)
  unfolding make_pool
  make_pool-On w a e q b c =
      let r = init_clients room cfg.max_connections cfg.buffer_capacity w.made a.serving.clients in
      if-split (On HasPool) r.0
        (λ h. (
          e,
          record {
            exclusive = making-IsExclusive room r.1 a.serving.busy b (
                init_clients-IsMaking room cfg.max_connections cfg.buffer_capacity w.made
                  a.serving.clients q h);
            counted = omega (arith, c, ap length b);
          },
        ))
        (λ _. tt)

  -- A server that is ready is started: it runs then, with an open acceptor and a sound pool; or the
  -- start fails, and it is stopped without an acceptor.
  pub start-IsStarted : (w : World) (a : Impl) → IsReady a → IsStarted (start room cfg w a)
  unfolding start
  start-IsStarted w a h =
      if-split IsStarted (is_stopped a.state)
        (λ _. settle-IsStarted _ (
          next_stage-On HasPool IsUp (make_pool room cfg w (record a { state = starting }))
            (λ b. next_stage (setup_acceptor w b) (λ c. start_accept_loops cfg w c))
            (make_pool-On w (record a { state = starting }) h.closed h.unqueued h.unheld
              h.uncounted)
            (λ b k.
              next_stage-On HasAcceptor IsUp (setup_acceptor w b) (λ c. start_accept_loops cfg w c)
                (setup_acceptor-On w b k) (λ c l. start_accept_loops-On cfg w c l))))
        (λ e. absurd (at_rest-is_stopped a h.at_rest e))
