-- ===== src/Broker/Handshake.antt =====
-- crates/lluma-broker/src/tunnel.rs: the handshake of a host's socket, and the frames that come in
-- after it. serde_json is a parameter; what the peer sends after a text is an argument.
use lluma.Common.{
  ℕ, Bool, true, false, not, ◌&&◌, Option, none, some, List, [], ◌∷◌, ◌++◌, Bytes, length, ltb,
  ◌==◌, Result, ok, err, is_ok, ◌>>=◌, if◌then◌else◌, lookup,
}
use lluma.Core.Wire.{Array32, be_bytes}
use lluma.Core.Proto.{
  TunnelFrame, hello, challenge, auth, auth_ok, job, done, fail, ExecResponse,
  validate_exec_response,
}
use lluma.Crypto.Primitives.{Primitives}
use lluma.Crypto.Account.{tunnel_auth_verify}
use lluma.Broker.Config.{BrokerError}
use lluma.Broker.Db.{Redb}
use lluma.Broker.Store.{Store, HostRow, get_row, with_read}
use lluma.Broker.Spent.{is_some}
use lluma.Broker.Tunnel.{TunnelRegistry, HostSocket, end_job}
pub mod Honest
pub mod Delivery

-- A message of a WebSocket, or an error of it; the end of a list is the end of the stream.
pub data WsMessage : Type 0 where
  text binary : Bytes → WsMessage
  ping pong close broken : WsMessage

pub record FrameJson : Type 0 where
  pub to_string : TunnelFrame → Option Bytes
  pub from_str : Bytes → Option TunnelFrame

-- What arrives after a text is sent; `none` when it cannot be sent.
abbrev pub Peer : Type 0
Peer = Bytes → Option (List WsMessage)

-- `MAX_HANDSHAKE_BYTES` and `MAX_FRAME_BYTES`
abbrev pub max_handshake_bytes : ℕ
max_handshake_bytes = 1024

abbrev pub max_frame_bytes : ℕ
max_frame_bytes = 2097152

-- The next frame and the messages behind it.
unfoldable pub recv_frame : FrameJson → ℕ → List WsMessage → Option (TunnelFrame × List WsMessage)
recv_frame json max [] = none
recv_frame json max (text s ∷ ms) =
    if ltb max (length s)
    then none
    else elim (json.from_str s) [ none ↦ none | some frame ↦ some (frame, ms) ]
recv_frame json max (ping ∷ ms) = recv_frame json max ms
recv_frame json max (pong ∷ ms) = recv_frame json max ms
recv_frame json max (binary b ∷ ms) = none
recv_frame json max (close ∷ ms) = none
recv_frame json max (broken ∷ ms) = none

unfoldable pub send_frame : FrameJson → Peer → TunnelFrame → Option (List WsMessage)
send_frame json peer frame = elim (json.to_string frame) [ none ↦ none | some s ↦ peer s ]

abbrev pub hello_account : TunnelFrame → Option Array32
hello_account (hello v host_account) = if v == 1 then some host_account else none
hello_account (challenge v c) = none
hello_account (auth v sig) = none
hello_account (auth_ok v) = none
hello_account (job v id spend sealed) = none
hello_account (done v id preamble chunk) = none
hello_account (fail v id) = none

abbrev pub auth_sig : TunnelFrame → Option Bytes
auth_sig (auth v sig) = if v == 1 then some sig else none
auth_sig (hello v a) = none
auth_sig (challenge v c) = none
auth_sig (auth_ok v) = none
auth_sig (job v id spend sealed) = none
auth_sig (done v id preamble chunk) = none
auth_sig (fail v id) = none

-- `?` on an option.
abbrev pub and_then : {A B : Type 0} → Option A → (A → Option B) → Option B
and_then none f = none
and_then (some a) f = f a

module _ ⦃R : Redb⦄ where
  abbrev pub has_row : R.Fault → Array32 → Store → Result BrokerError Bool
  has_row φ account s = do row ← get_row φ s.hosts account; ok (is_some row)

  abbrev pub unwrap_or_false : Result BrokerError Bool → Bool
  unwrap_or_false (ok b) = b
  unwrap_or_false (err e) = false

  unfoldable pub account_registered : R.Fault → Store → Array32 → Bool
  account_registered φ s account = unwrap_or_false (with_read φ (has_row φ account) s)

module _ ⦃C : Primitives⦄ ⦃R : Redb⦄ (json : FrameJson) where
  -- What is checked of the signature, and of the registry, at the end.
  unfoldable pub authorize : R.Fault → Store → Array32 → Array32 → Array32 → Bytes → Option Array32
  unfolding account_registered
  authorize φ s registry_pk host_account nonce sig =
      if is_ok (tunnel_auth_verify (be_bytes 32 host_account) nonce host_account registry_pk sig)
        && account_registered φ s host_account
      then some host_account
      else none

  -- `handshake` with the messages that have come in, the peer, and the challenge that is drawn.
  unfoldable pub handshake :
      R.Fault → Store → Array32 → Array32 → List WsMessage → Peer → Option Array32
  unfolding authorize recv_frame send_frame
  handshake φ s registry_pk nonce incoming peer =
      and_then (recv_frame json max_handshake_bytes incoming) (λ first.
        and_then (hello_account first.0) (λ host_account.
          and_then (send_frame json peer (challenge 1 nonce)) (λ arrived.
            and_then (recv_frame json max_handshake_bytes (first.1 ++ arrived)) (λ second.
              and_then (auth_sig second.0) (authorize φ s registry_pk host_account nonce)))))

-- What a waiter is handed.
abbrev pub is_pending : List ℕ → ℕ → Bool
is_pending [] i = false
is_pending (j ∷ js) i = if j == i then true else is_pending js i

-- `deliver`: the waiter of the id, if there is one, gets the response, or its channel is dropped.
unfoldable pub deliver :
    TunnelRegistry → ℕ → ℕ → Option ExecResponse → Option (ℕ × ExecResponse) × TunnelRegistry
deliver t g id resp = (
  (elim (lookup t.heap g) [
    | none ↦ none
    | some sock ↦
        if is_pending sock.pending id
        then (elim resp [ none ↦ none | some r ↦ some (id, r) ])
        else none
  ]),
  end_job t g id,
)

-- `resp.validate().is_ok().then_some(resp)`
abbrev pub valid_only : ExecResponse → Option ExecResponse
valid_only resp = if is_ok (validate_exec_response resp) then some resp else none

-- The frames that the reader loop acts on.
unfoldable pub on_frame :
    TunnelRegistry → ℕ → Option TunnelFrame → Option (ℕ × ExecResponse) × TunnelRegistry
unfolding deliver
on_frame t g (some (done v id preamble chunk)) =
    if v == 1
    then deliver t g id (valid_only (record { preamble = preamble; chunk = chunk }))
    else (none, t)
on_frame t g (some (fail v id)) = if v == 1 then deliver t g id none else (none, t)
on_frame t g (some (hello v a)) = (none, t)
on_frame t g (some (challenge v c)) = (none, t)
on_frame t g (some (auth v sig)) = (none, t)
on_frame t g (some (auth_ok v)) = (none, t)
on_frame t g (some (job v id spend sealed)) = (none, t)
on_frame t g none = (none, t)

-- One message of the reader loop: `none` leaves the loop.
unfoldable pub on_message :
    FrameJson → TunnelRegistry → ℕ → WsMessage → Option (Option (ℕ × ExecResponse) × TunnelRegistry)
unfolding on_frame
on_message json t g (text s) =
    if ltb max_frame_bytes (length s) then none else some (on_frame t g (json.from_str s))
on_message json t g close = none
on_message json t g broken = none
on_message json t g (binary b) = some (none, t)
on_message json t g ping = some (none, t)
on_message json t g pong = some (none, t)
