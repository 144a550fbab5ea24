-- ===== src/Broker/Tunnel.antt =====
-- crates/lluma-broker/src/tunnel.rs: the directory of live host sockets, and the slots that an exec
-- reserves on them. A socket is shared (`Arc`) between the directory, the guards and its tasks: it
-- lives in a heap at a place of its own, and the directory holds the place. A loop of
-- compare-and-swap takes effect at one point, so it is one step here.
pub mod Slots
use lluma.Common.{
  ℕ, suc, ◌+◌, ◌-◌, ◌%◌, ◌^◌, Bool, true, false, not, ◌&&◌, Option, none, some, List, [], ◌∷◌,
  length, leb, ◌==◌, if◌then◌else◌, lookup, assign, erase, Result, ok, err,
}
use lluma.Core.Wire.{Array32}

-- `MAX_INFLIGHT_PER_SOCKET` and `MAX_SOCKETS`
abbrev pub max_inflight_per_socket : ℕ
max_inflight_per_socket = 16

abbrev pub max_sockets : ℕ
max_sockets = 4096

-- `pending` holds the request ids that have a waiter; `job_tx_open` that the writer still listens.
pub record HostSocket : Type 0 where
  pub generation : ℕ
  pub job_tx_open : Bool
  pub pending : List ℕ
  pub inflight : ℕ
  pub next_request_id : ℕ

pub record TunnelRegistry : Type 0 where
  pub heap : List (ℕ × HostSocket)
  pub sockets : List (Array32 × ℕ)
  pub next_generation : ℕ
  -- where the next socket is allocated
  pub next_place : ℕ

abbrev pub new : TunnelRegistry
new = record { heap = []; sockets = []; next_generation = 0; next_place = 0 }

-- `HostSocket::try_reserve`, `release` (whose subtraction wraps) and `fail_all_pending`
abbrev pub try_reserve : HostSocket → Bool × HostSocket
try_reserve sock =
    if leb max_inflight_per_socket sock.inflight
    then (false, sock)
    else (true, record sock { inflight = suc sock.inflight })

abbrev pub release : HostSocket → HostSocket
release sock = record sock {
  inflight = if sock.inflight == 0 then 2 ^ 64 - 1 else sock.inflight - 1;
}

abbrev pub fail_all_pending : HostSocket → HostSocket
fail_all_pending sock = record sock { pending = [] }

-- `fetch_add(1)` on an `AtomicU64`
abbrev pub fetch_add : ℕ → ℕ
fetch_add n = suc n % 2 ^ 64

-- An effect on the shared socket at a place.
unfoldable pub update : TunnelRegistry → ℕ → (HostSocket → HostSocket) → TunnelRegistry
update t g f = elim (lookup t.heap g) [
  | none ↦ t
  | some sock ↦ record t { heap = assign t.heap g (f sock) }
]

-- `TunnelRegistry::get`
unfoldable pub get : TunnelRegistry → Array32 → Option HostSocket
get t account = elim (lookup t.sockets account) [ none ↦ none | some g ↦ lookup t.heap g ]

-- A new socket of the next generation, as `handle_socket` makes it, and its place.
unfoldable pub open_socket : TunnelRegistry → ℕ × TunnelRegistry
open_socket t =
    let sock : HostSocket = record {
      generation = t.next_generation;
      job_tx_open = true;
      pending = [];
      inflight = 0;
      next_request_id = 0;
    } in
    (
      t.next_place,
      record t {
        heap = assign t.heap t.next_place sock;
        next_generation = fetch_add t.next_generation;
        next_place = suc t.next_place;
      },
    )

-- `TunnelRegistry::insert`: the cap holds for new accounts.
unfoldable pub insert : TunnelRegistry → Array32 → ℕ → Result (Unit {0}) (Option ℕ) × TunnelRegistry
insert t account g =
    let old = lookup t.sockets account in
    if elim old [ none ↦ leb max_sockets (length t.sockets) | some x ↦ false ]
    then (err tt, t)
    else (ok old, record t { sockets = assign t.sockets account g })

-- The replaced socket's jobs fail at once.
unfoldable pub settle : Result (Unit {0}) (Option ℕ) → TunnelRegistry → TunnelRegistry
unfolding update
settle (err e) t = t
settle (ok none) t = t
settle (ok (some old)) t = update t old fail_all_pending

-- `handle_socket` after the handshake.
unfoldable pub connect : TunnelRegistry → Array32 → TunnelRegistry
unfolding open_socket insert settle
connect t account = let (p, t1) = open_socket t in let (r, t2) = insert t1 account p in settle r t2

unfoldable pub remove_if_current : TunnelRegistry → Array32 → ℕ → TunnelRegistry
remove_if_current t account generation = elim (lookup t.sockets account) [
  | none ↦ t
  | some p ↦ elim (lookup t.heap p) [
    | none ↦ t
    | some sock ↦
        if sock.generation == generation then record t { sockets = erase t.sockets account } else t
  ]
]

-- The teardown of a socket: its writer stops, it leaves the directory, its jobs fail.
unfoldable pub disconnect : TunnelRegistry → Array32 → ℕ → TunnelRegistry
unfolding remove_if_current update
disconnect t account p = elim (lookup t.heap p) [
  | none ↦ t
  | some own ↦
      update (remove_if_current t account own.generation) p
        (λ sock. record sock { job_tx_open = false; pending = [] })
]

pub socket_count : TunnelRegistry → ℕ
socket_count t = length t.sockets

pub data Reservation : Type 0 where
  no_socket at_capacity : Reservation
  reserved : ℕ → Reservation

abbrev reserve_slot : TunnelRegistry → ℕ → HostSocket → Reservation × TunnelRegistry
reserve_slot t g sock =
    if not sock.job_tx_open
    then (no_socket, t)
    else if (try_reserve sock).0
    then (reserved g, record t { heap = assign t.heap g (try_reserve sock).1 })
    else (at_capacity, t)

-- `reserve_tunnel`; the guard is the place of the socket that it holds.
unfoldable pub reserve_tunnel : TunnelRegistry → Array32 → Reservation × TunnelRegistry
reserve_tunnel t account = elim (lookup t.sockets account) [
  | none ↦ (no_socket, t)
  | some g ↦ elim (lookup t.heap g) [ none ↦ (no_socket, t) | some sock ↦ reserve_slot t g sock ]
]

-- `Drop for InflightGuard`
unfoldable pub drop_guard : TunnelRegistry → ℕ → TunnelRegistry
unfolding update
drop_guard t g = update t g release

abbrev pub remove_id : List ℕ → ℕ → List ℕ
remove_id [] i = []
remove_id (j ∷ js) i = if j == i then remove_id js i else j ∷ remove_id js i

-- `dispatch`: a request id is drawn and waits among the pending ones until it is answered, or the
-- send fails, or the time is up; then it is removed, by the reader or by `dispatch` itself.
unfoldable pub start_job : TunnelRegistry → ℕ → TunnelRegistry
unfolding update
start_job t g = update t g (λ sock. record sock {
  next_request_id = fetch_add sock.next_request_id;
  pending = sock.next_request_id ∷ remove_id sock.pending sock.next_request_id;
})

unfoldable pub end_job : TunnelRegistry → ℕ → ℕ → TunnelRegistry
unfolding update
end_job t g id = update t g (λ sock. record sock { pending = remove_id sock.pending id })

-- The id that the next job of a socket draws.
abbrev pub next_id : TunnelRegistry → ℕ → ℕ
next_id t g = elim (lookup t.heap g) [ none ↦ 0 | some sock ↦ sock.next_request_id ]

-- The whole of a `dispatch` as the directory sees it, whatever its answer.
unfoldable pub dispatch : TunnelRegistry → ℕ → TunnelRegistry
unfolding start_job end_job
dispatch t g = end_job (start_job t g) g (next_id t g)
