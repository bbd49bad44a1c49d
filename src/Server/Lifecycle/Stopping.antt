-- ===== src/Server/Lifecycle/Stopping.antt =====
-- clueapi/server/impl/server.cxx: what a stop leaves behind.
use clueapi.Base.{
  ℕ, ◌≡◌, ◌∙◌, refl, sym, ap, subst, Bool, true, false, List, [], ◌∷◌, Option, none, some, arith,
  length, if◌then◌else◌, if-split,
}
use clueapi.Server.Client.{Client}
use clueapi.Server.Pool.{return_all, free_all, get_client, release_client}
use clueapi.Server.Connections.{Serving, Event, ends, run, step, has, finish, released}
use clueapi.Server.Connections.Exclusive.{counter, owned, IsServing, GoesOn, run-GoesOn}
use clueapi.Server.Lifecycle.{
  Settings, Impl, World, start, stopped, stopping, running, destroy_acceptor, destroy_clients, stop,
  is_running,
}
use clueapi.Server.Lifecycle.Restart.{IsUp, IsStarted, start-IsStarted}

owned-return_all : (id : ℕ) (m : List (ℕ × Client)) → owned id (return_all m) ≡ owned id m
unfolding owned return_all
owned-return_all id [] = refl
owned-return_all id ((i, c) ∷ m) = ground (arith, owned-return_all id m)

return_all-IsServing :
    (s : Serving)
    → IsServing s
    → IsServing (record s { clients = record s.clients { storage = return_all s.clients.storage } })
return_all-IsServing s h = record {
  exclusive = record {
    once = λ id. omega (arith, h.exclusive.once id, owned-return_all id s.clients.storage);
    theirs = λ id. omega (arith, h.exclusive.theirs id, owned-return_all id s.clients.storage);
  };
  counted = h.counted;
}

-- What `stop` promises of a server that runs.
abbrev pub IsStoppedBy : Option Impl → Type 0
IsStoppedBy none = ⊥
IsStoppedBy (some b) =
    (b.state ≡ stopped)
    × (b.acceptor ≡ none)
    × (b.serving.clients.storage ≡ [])
    × (b.serving.clients.queue ≡ [])
    × (b.serving.active ≡ counter (length b.serving.busy) b.serving.missed)

no_acceptor : (a : Impl) → (destroy_acceptor (record a { state = stopping })).acceptor ≡ none
unfolding destroy_acceptor
no_acceptor a = ground arith

kept_serving : (a : Impl) → (destroy_acceptor (record a { state = stopping })).serving ≡ a.serving
unfolding destroy_acceptor
kept_serving a = ground arith

up-is_running : (a : Impl) → a.state ≡ running → is_running a ≡ false → ⊥
unfolding is_running
up-is_running a h e = ground arith

module _ (room : List ℕ → Bool) where
  abbrev IsDestroyed : Option Serving → Type 0
  IsDestroyed none = ⊥
  IsDestroyed (some s) =
      (s.clients.storage ≡ [])
      × (s.clients.queue ≡ [])
      × (s.active ≡ counter (length s.busy) s.missed)

  destroyed :
      (o : Option Serving)
      → GoesOn o
      → IsDestroyed (elim o as (λ _. Option Serving) [
        | none ↦ none
        | some q ↦ some (record q { clients = free_all q.clients })
      ])
  unfolding free_all
  destroyed none h = absurd h
  destroyed (some q) h = (refl, refl, h.counted)

  destroy_clients-IsDestroyed :
      (cfg : Settings) (es : List Event) (s : Serving)
      → IsServing s
      → IsDestroyed (destroy_clients room cfg es s)
  unfolding destroy_clients
  destroy_clients-IsDestroyed cfg es s h =
      destroyed
        (run room es
          (record s { clients = record s.clients { storage = return_all s.clients.storage } }))
        (run-GoesOn room es _ (return_all-IsServing s h))

  finish-freed : (id : ℕ) (s : Serving) → s.clients.storage ≡ [] → finish room id s ≡ none
  unfolding finish released release_client get_client
  finish-freed id s e =
      let gone : get_client id s.clients.storage ≡ none = ap (get_client id) e in
      rw (finish, released, release_client, gone) refl

  stopped_by :
      (b : Impl) (o : Option Serving)
      → b.acceptor ≡ none
      → IsDestroyed o
      → IsStoppedBy (elim o as (λ _. Option Impl) [
        | none ↦ none
        | some s ↦ some (record b { serving = s; state = stopped })
      ])
  stopped_by b none e h = absurd h
  stopped_by b (some s) e (x, y, z) = (refl, e, x, y, z)

  -- A server that runs is stopped, whatever happens while it waits: it has no acceptor, no clients and
  -- an empty queue then, and its counter is the number of handlers that still wait, less those that were missed.
  pub stop-IsStoppedBy :
      (cfg : Settings) (es : List Event) (a : Impl) → IsUp a → IsStoppedBy (stop room cfg es a)
  unfolding stop destroy_acceptor
  stop-IsStoppedBy cfg es a h =
      if-split IsStoppedBy (is_running a)
        (λ _.
          stopped_by (destroy_acceptor (record a { state = stopping })) _ (no_acceptor a)
            (destroy_clients-IsDestroyed cfg es _ (subst IsServing (sym (kept_serving a)) h.sound)))
        (λ e. absurd (up-is_running a h.runs e))

  -- A server that runs, was stopped and has no handler left is ready for another start, which ends as
  -- that of a new server does: it runs with an open acceptor and a sound pool, or is stopped.
  pub stop-start :
      (cfg : Settings) (es : List Event) (a b : Impl) (w : World)
      → IsUp a
      → stop room cfg es a ≡ some b
      → b.serving.busy ≡ []
      → IsStarted (start room cfg w b)
  stop-start cfg es a b w h e held =
      let (x, y, storage, z, counted) = subst IsStoppedBy e (stop-IsStoppedBy cfg es a h) in
      start-IsStarted room cfg w b (record {
        at_rest = x;
        closed = y;
        unqueued = z;
        unheld = held;
        uncounted = counted ∙ ap (λ l. counter (length l) b.serving.missed) held;
      })

  -- A defect: a session that ends after the server was stopped at its deadline uses a client that was
  -- freed.
  pub stop-late_end :
      (cfg : Settings) (es : List Event) (a : Impl) (b : Impl) (id : ℕ)
      → IsUp a
      → stop room cfg es a ≡ some b
      → has id b.serving.busy ≡ true
      → step room b.serving (ends id) ≡ none
  unfolding step
  stop-late_end cfg es a b id h e held =
      let (x, y, storage, z, counted) = subst IsStoppedBy e (stop-IsStoppedBy cfg es a h) in
      ap (λ t. if t then finish room id b.serving else some b.serving) held
      ∙ finish-freed id b.serving storage
