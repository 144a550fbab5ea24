-- ===== src/Broker/Exec/Guards.antt =====
-- crates/lluma-broker/src/service.rs: `exec` gives back every slot that it reserves on a socket.
use lluma.Common.{
  ℕ, ◌≡◌, ◌⊎◌, inl, inr, refl, Option, none, some, String, List, Bytes, Result, ok, err, arith,
  Bool-cases, subst, [], ◌∷◌,
}
use lluma.Core.Wire.{Array32, SpendId, SealedRequest}
use lluma.Core.Proto.{ExecRequest}
use lluma.Crypto.Primitives.{Primitives}
use lluma.Crypto.Tokens.{BlindRsa}
use lluma.Broker.Config.{BrokerError}
use lluma.Broker.Db.{Redb}
use lluma.Broker.Store.{Store}
use lluma.Broker.Redeem.{resolve_active_host, SpendOutcome, newly_spent, already_spent}
use lluma.Broker.Tunnel.{
  TunnelRegistry, Reservation, no_socket, at_capacity, reserved, reserve_tunnel, dispatch,
  start_job, end_job,
}
use lluma.Broker.Tunnel.Slots.{IsCounted, reserve-IsCounted, drop-IsCounted, update-IsCounted}
use lluma.Broker.Exec.{
  Response, Route, tunnel, http, ExecJson, Outside, ExecSetup, choose_route, leave, jobs,
  after_spend, check_exec, spend_and_forward, exec_checked, exec, route_reserved,
  tunnel_sentinel_addr,
}
use text.Mathlib.Text.{◌==◌ as str_eq}

-- The guards that are out while a route is held.
abbrev held : Route → List ℕ → List ℕ
held (tunnel g) gs = g ∷ gs
held (http addr) gs = gs

module _ ⦃C : Primitives⦄ ⦃B : BlindRsa⦄ ⦃R : Redb⦄ where
  leave-IsCounted :
      (route : Route) (t : TunnelRegistry) (gs : List ℕ)
      → IsCounted t (held route gs)
      → IsCounted (leave route t) gs
  unfolding leave
  leave-IsCounted (tunnel g) t gs h = drop-IsCounted t [] gs g h
  leave-IsCounted (http addr) t gs h = h

  jobs-IsCounted :
      (route : Route) (t : TunnelRegistry) (gs : List ℕ)
      → IsCounted t gs
      → IsCounted (jobs route t) gs
  unfolding jobs dispatch start_job end_job
  jobs-IsCounted (tunnel g) t gs h =
      update-IsCounted (start_job t g) gs g _ (λ sock. refl)
        (update-IsCounted t gs g _ (λ sock. refl) h)
  jobs-IsCounted (http addr) t gs h = h

  after_spend-IsCounted :
      (json : ExecJson) (out : Outside) (route : Route) (id : SpendId) (sealed : SealedRequest)
      (t : TunnelRegistry) (gs : List ℕ) (o : Result BrokerError SpendOutcome)
      → IsCounted t (held route gs)
      → IsCounted (after_spend json out route id sealed t o).1 gs
  unfolding after_spend
  after_spend-IsCounted json out route id sealed t gs (ok newly_spent) h =
      leave-IsCounted route (jobs route t) gs (jobs-IsCounted route t (held route gs) h)
  after_spend-IsCounted json out route id sealed t gs (ok already_spent) h =
      leave-IsCounted route t gs h
  after_spend-IsCounted json out route id sealed t gs (err e) h = leave-IsCounted route t gs h

  unreserved :
      (t t' : TunnelRegistry) (account : Array32) (o : Reservation)
      → reserve_tunnel t account ≡ (o, t')
      → ((g : ℕ) × (o ≡ reserved g)) ⊎ (t ≡ t')
  unfolding reserve_tunnel
  unreserved t t' account (reserved g) e = inl (g, refl)
  unreserved t t' account no_socket e = inr (ground (arith, e))
  unreserved t t' account at_capacity e = inr (ground (arith, e))

  -- The guards that are out after a route was chosen.
  abbrev held_by : Result Response Route → List ℕ → List ℕ
  held_by (err resp) gs = gs
  held_by (ok route) gs = held route gs

  routed-IsCounted :
      (t t' : TunnelRegistry) (account : Array32) (gs : List ℕ) (addr : String) (o : Reservation)
      → reserve_tunnel t account ≡ (o, t')
      → IsCounted t gs
      → IsCounted t' (held_by (route_reserved addr o) gs)
  routed-IsCounted t t' account gs addr (reserved g) e h = reserve-IsCounted t t' gs account g h e
  routed-IsCounted t t' account gs addr at_capacity e h =
      elim (unreserved t t' account at_capacity e) [
        | inl (g, bad) ↦ absurd (ground (arith, bad))
        | inr same ↦ subst (λ u. IsCounted u gs) same h
      ]
  routed-IsCounted t t' account gs addr no_socket e h = elim (unreserved t t' account no_socket e) [
    | inl (g, bad) ↦ absurd (ground (arith, bad))
    | inr same ↦ elim (Bool-cases (str_eq addr tunnel_sentinel_addr)) [
      | inl yes_ ↦ rw yes_ (subst (λ u. IsCounted u gs) same h)
      | inr no_ ↦ rw no_ (subst (λ u. IsCounted u gs) same h)
    ]
  ]

  choose_route-IsCounted :
      (found : Result BrokerError (Option String)) (t : TunnelRegistry) (host : Array32)
      (gs : List ℕ)
      → IsCounted t gs
      → IsCounted (choose_route found t host).1 (held_by (choose_route found t host).0 gs)
  unfolding choose_route
  choose_route-IsCounted (err e) t host gs h = h
  choose_route-IsCounted (ok none) t host gs h = h
  choose_route-IsCounted (ok (some addr)) t host gs h =
      routed-IsCounted t (reserve_tunnel t host).1 host gs addr (reserve_tunnel t host).0 refl h

  spend_and_forward-IsCounted :
      (json : ExecJson) (out : Outside) (st : ExecSetup) (req : ExecRequest) (s : Store)
      (r : Result Response Route) (t : TunnelRegistry) (gs : List ℕ)
      → IsCounted t (held_by r gs)
      → IsCounted (spend_and_forward json out st req s r t).2 gs
  unfolding spend_and_forward
  spend_and_forward-IsCounted json out st req s (err resp) t gs h = h
  spend_and_forward-IsCounted json out st req s (ok route) t gs h =
      after_spend-IsCounted json out route _ req.sealed t gs _ h

  exec_checked-IsCounted :
      (json : ExecJson) (out : Outside) (st : ExecSetup) (s : Store) (t : TunnelRegistry)
      (checked : Result Response ExecRequest) (gs : List ℕ)
      → IsCounted t gs
      → IsCounted (exec_checked json out st s t checked).2 gs
  unfolding exec_checked
  exec_checked-IsCounted json out st s t (err resp) gs h = h
  exec_checked-IsCounted json out st s t (ok req) gs h =
      spend_and_forward-IsCounted json out st req s _ _ gs (
        choose_route-IsCounted (resolve_active_host out.read_fault out.seen req.host_account) t
          req.host_account gs h)

  -- On every path, refused, answered or failed upstream, `exec` gives back the slot that it reserved:
  -- the counters of all sockets still count exactly the guards that were out before it.
  pub exec-IsCounted :
      (json : ExecJson) (out : Outside) (st : ExecSetup) (s : Store) (t : TunnelRegistry)
      (body : Bytes) (gs : List ℕ)
      → IsCounted t gs
      → IsCounted (exec json out st s t body).2 gs
  unfolding exec
  exec-IsCounted json out st s t body gs h =
      exec_checked-IsCounted json out st s t (check_exec json st body) gs h
