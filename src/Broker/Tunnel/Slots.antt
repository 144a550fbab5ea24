-- ===== src/Broker/Tunnel/Slots.antt =====
-- crates/lluma-broker/src/tunnel.rs: each socket's counter of slots is the number of guards that are
-- out on it, over every interleaving of connections, reservations and releases.
use lluma.Common.{
  ℕ, suc, ◌≤◌, ◌<◌, ◌≡◌, ◌⊎◌, refl, true, Option, none, some, List, [], ◌∷◌, ◌++◌, length, ◌==◌,
  if◌then◌else◌, lookup, lookup-assign, length-assign, length-erase, arith, Result, ok, err,
  Option-cases, inl, inr,
}
use lluma.Core.Wire.{Array32}
use lluma.Broker.Tunnel.{
  HostSocket, TunnelRegistry, new, connect, disconnect, reserve_tunnel, drop_guard, reserved,
  update, open_socket, insert, remove_if_current, fail_all_pending, release, settle, try_reserve,
}

-- The guards on a socket, among those that are out.
abbrev pub count : ℕ → List ℕ → ℕ
count g [] = 0
count g (h ∷ gs) = if h == g then suc (count g gs) else count g gs

-- What the broker's tasks make of the directory, with the guards that are out.
pub data Reaches : TunnelRegistry → List ℕ → Type 0 where
  starts : Reaches new []
  connects :
      {t : TunnelRegistry} {gs : List ℕ} (account : Array32)
      → Reaches t gs
      → Reaches (connect t account) gs
  disconnects :
      {t : TunnelRegistry} {gs : List ℕ} (account : Array32) (g : ℕ)
      → Reaches t gs
      → Reaches (disconnect t account g) gs
  reserves :
      {t t' : TunnelRegistry} {gs : List ℕ} (account : Array32) (g : ℕ)
      → Reaches t gs
      → reserve_tunnel t account ≡ (reserved g, t')
      → Reaches t' (g ∷ gs)
  drops :
      {t : TunnelRegistry} (hs gs : List ℕ) (g : ℕ)
      → Reaches t (hs ++ (g ∷ gs))
      → Reaches (drop_guard t g) (hs ++ gs)

-- The slots in use on a socket, and that there is such a socket.
abbrev pub Holds : Option HostSocket → ℕ → Type 0
Holds none n = n ≡ 0
Holds (some sock) n = (sock.inflight ≡ n) × (n ≤ 16)

pub record IsCounted (t : TunnelRegistry) (gs : List ℕ) : Type 0 where
  pub slots : (g : ℕ) → Holds (lookup t.heap g) (count g gs)
  pub fresh : (g : ℕ) → (lookup t.heap g ≡ none) ⊎ (g < t.next_place)
  pub sockets : length t.sockets ≤ 4096

count-append :
    (g h : ℕ) (hs gs : List ℕ)
    → count g (hs ++ (h ∷ gs)) ≡ (if h == g then suc (count g (hs ++ gs)) else count g (hs ++ gs))
count-append g h [] gs = refl
count-append g h (k ∷ hs) gs = ground (arith, count-append g h hs gs)

abbrev mapped : (HostSocket → HostSocket) → Option HostSocket → Option HostSocket
mapped f none = none
mapped f (some sock) = some (f sock)

-- An effect on one socket leaves the others alone, and makes none.
lookup-update :
    (t : TunnelRegistry) (g : ℕ) (f : HostSocket → HostSocket) (j : ℕ)
    → lookup (update t g f).heap j
      ≡ (if g == j then mapped f (lookup t.heap j) else lookup t.heap j)
unfolding update
lookup-update t g f j = elim (Option-cases (lookup t.heap g)) [
  | inl e ↦ ground (arith, e)
  | inr (sock, e) ↦ ground (arith, e, lookup-assign t.heap g (f sock) j)
]

update_rest :
    (t : TunnelRegistry) (g : ℕ) (f : HostSocket → HostSocket)
    → ((update t g f).sockets ≡ t.sockets) × ((update t g f).next_place ≡ t.next_place)
unfolding update
update_rest t g f = ground arith

pub reserve-IsCounted :
    (t t' : TunnelRegistry) (gs : List ℕ) (account : Array32) (g : ℕ)
    → IsCounted t gs
    → reserve_tunnel t account ≡ (reserved g, t')
    → IsCounted t' (g ∷ gs)
unfolding reserve_tunnel
reserve-IsCounted t t' gs account g h e = elim (Option-cases (lookup t.sockets account)) [
  | inl e1 ↦ absurd (ground (arith, e, e1))
  | inr (g', e1) ↦ elim (Option-cases (lookup t.heap g')) [
    | inl e2 ↦ absurd (ground (arith, e, e1, e2))
    | inr (sock, e2) ↦ record {
      slots =
          λ j. ground (arith, e, e1, e2, h.slots j, lookup-assign t.heap g' (try_reserve sock).1 j);
      fresh =
          λ j. ground (arith, e, e1, e2, h.fresh j, lookup-assign t.heap g' (try_reserve sock).1 j);
      sockets = ground (arith, e, e1, e2, h.sockets);
    }
  ]
]

pub drop-IsCounted :
    (t : TunnelRegistry) (hs gs : List ℕ) (g : ℕ)
    → IsCounted t (hs ++ (g ∷ gs))
    → IsCounted (drop_guard t g) (hs ++ gs)
unfolding drop_guard
drop-IsCounted t hs gs g h = record {
  slots = λ j. ground (arith, h.slots j, count-append j g hs gs, lookup-update t g release j);
  fresh = λ j. ground (arith, h.fresh j, lookup-update t g release j, update_rest t g release);
  sockets = ground (arith, h.sockets, update_rest t g release);
}

-- An effect that leaves the counter alone.
pub update-IsCounted :
    (t : TunnelRegistry) (gs : List ℕ) (g : ℕ) (f : HostSocket → HostSocket)
    → ((sock : HostSocket) → (f sock).inflight ≡ sock.inflight)
    → IsCounted t gs
    → IsCounted (update t g f) gs
update-IsCounted t gs g f keeps h = record {
  slots = λ j. elim (Option-cases (lookup t.heap j)) [
    | inl e ↦ ground (arith, e, h.slots j, lookup-update t g f j)
    | inr (sock, e) ↦ ground (arith, e, h.slots j, keeps sock, lookup-update t g f j)
  ];
  fresh = λ j. ground (arith, h.fresh j, lookup-update t g f j, update_rest t g f);
  sockets = ground (arith, h.sockets, update_rest t g f);
}

open-IsCounted :
    (t : TunnelRegistry) (gs : List ℕ) → IsCounted t gs → IsCounted (open_socket t).1 gs
unfolding open_socket
open-IsCounted t gs h =
    let sock : HostSocket = record {
      generation = t.next_generation;
      job_tx_open = true;
      pending = [];
      inflight = 0;
      next_request_id = 0;
    } in
    record {
      slots = λ j. ground (arith, h.slots j, h.fresh j, lookup-assign t.heap t.next_place sock j);
      fresh = λ j. ground (arith, h.fresh j, lookup-assign t.heap t.next_place sock j);
      sockets = h.sockets;
    }

insert-IsCounted :
    (t : TunnelRegistry) (gs : List ℕ) (account : Array32) (g : ℕ)
    → IsCounted t gs
    → IsCounted (insert t account g).1 gs
unfolding insert
insert-IsCounted t gs account g h = record {
  slots = λ j. ground (arith, h.slots j);
  fresh = λ j. ground (arith, h.fresh j);
  sockets = ground (arith, h.sockets, length-assign t.sockets account g);
}

settle-IsCounted :
    (t : TunnelRegistry) (gs : List ℕ) (r : Result (Unit {0}) (Option ℕ))
    → IsCounted t gs
    → IsCounted (settle r t) gs
unfolding settle
settle-IsCounted t gs (err e) h = h
settle-IsCounted t gs (ok none) h = h
settle-IsCounted t gs (ok (some old)) h =
    update-IsCounted t gs old fail_all_pending (λ sock. refl) h

connect-IsCounted :
    (t : TunnelRegistry) (gs : List ℕ) (account : Array32)
    → IsCounted t gs
    → IsCounted (connect t account) gs
unfolding connect open_socket
connect-IsCounted t gs account h =
    settle-IsCounted (insert (open_socket t).1 account t.next_place).1 gs _
      (insert-IsCounted (open_socket t).1 gs account t.next_place (open-IsCounted t gs h))

remove-IsCounted :
    (t : TunnelRegistry) (gs : List ℕ) (account : Array32) (g : ℕ)
    → IsCounted t gs
    → IsCounted (remove_if_current t account g) gs
unfolding remove_if_current
remove-IsCounted t gs account g h = record {
  slots = λ j. ground (arith, h.slots j);
  fresh = λ j. ground (arith, h.fresh j);
  sockets = ground (arith, h.sockets, length-erase t.sockets account);
}

disconnect-IsCounted :
    (t : TunnelRegistry) (gs : List ℕ) (account : Array32) (g : ℕ)
    → IsCounted t gs
    → IsCounted (disconnect t account g) gs
unfolding disconnect
disconnect-IsCounted t gs account g h = elim (Option-cases (lookup t.heap g)) [
  | inl e ↦ rw (e, disconnect) h
  | inr (own, e) ↦
      rw (e, disconnect)
        (update-IsCounted (remove_if_current t account own.generation) gs g _ (λ sock. refl)
          (remove-IsCounted t gs account own.generation h))
]

-- Over every interleaving of connections, replacements, reservations, releases and teardowns, the
-- counter of each socket is the number of guards that are out on it and never more than 16, so that
-- a release never wraps and a slot is freed exactly once; and at most 4096 sockets are listed.
pub Reaches-IsCounted : (t : TunnelRegistry) (gs : List ℕ) → Reaches t gs → IsCounted t gs
unfolding lookup
Reaches-IsCounted _ _ starts = record {
  slots = λ g. refl;
  fresh = λ g. inl refl;
  sockets = omega arith;
}
Reaches-IsCounted _ gs (connects {t} account r) =
    connect-IsCounted t gs account (Reaches-IsCounted t gs r)
Reaches-IsCounted _ gs (disconnects {t} account g r) =
    disconnect-IsCounted t gs account g (Reaches-IsCounted t gs r)
Reaches-IsCounted _ _ (reserves {t} {t'} {gs} account g r e) =
    reserve-IsCounted t t' gs account g (Reaches-IsCounted t gs r) e
Reaches-IsCounted _ _ (drops {t} hs gs g r) =
    drop-IsCounted t hs gs g (Reaches-IsCounted t (hs ++ (g ∷ gs)) r)
