-- ===== src/Host/Tunnel.antt =====
-- crates/lluma-host/src/tunnel.rs: the host's side of the tunnel. `ws` is what arrives after a text is
-- sent, as on the broker's side.
use lluma.Common.{
  ℕ, ◌*◌, min, Option, none, some, List, [], ◌∷◌, ◌++◌, Bytes, ◌==◌, ◌+◌, ◌%◌, Bool, Result, ok,
  err, ok_or, ◌>>=◌, if◌then◌else◌,
}
use lluma.Core.Wire.{Array32, AccountSecretKey}
use lluma.Core.Proto.{TunnelFrame, hello, challenge, auth, auth_ok, job, done, fail, ExecResponse}
use lluma.Crypto.Primitives.{Primitives}
use lluma.Crypto.Account.{Fallible, tunnel_auth_sign}
use lluma.Crypto.Hpke.{Hpke}
use lluma.Broker.Handshake.{WsMessage, text, binary, ping, pong, close, broken, FrameJson, Peer}
use lluma.Host.{Upstream, ServeError, serve_sealed}

-- `TunnelConfig` without the URL.
pub record TunnelConfig : Type 0 where
  pub host_account : Array32
  pub account_sk : AccountSecretKey
  pub broker_key_id : Array32

-- `TunnelError`; no connection, no model.
pub data TunnelError : Type 0 where
  connect auth_failed protocol sign : TunnelError

unfoldable pub ws_recv :
    FrameJson → List WsMessage → Result TunnelError (TunnelFrame × List WsMessage)
ws_recv json [] = err protocol
ws_recv json (text s ∷ ms) = ok_or (json.from_str s) protocol >>= λ frame. ok (frame, ms)
ws_recv json (ping ∷ ms) = ws_recv json ms
ws_recv json (pong ∷ ms) = ws_recv json ms
ws_recv json (binary b ∷ ms) = err protocol
ws_recv json (close ∷ ms) = err protocol
ws_recv json (broken ∷ ms) = err protocol

unfoldable pub ws_send : FrameJson → Peer → TunnelFrame → Result TunnelError (List WsMessage)
ws_send json ws frame = do s ← ok_or (json.to_string frame) protocol; ok_or (ws s) protocol

abbrev pub the_challenge : TunnelFrame → Result TunnelError Array32
the_challenge (challenge v c) = if v == 1 then ok c else err auth_failed
the_challenge (hello v a) = err auth_failed
the_challenge (auth v sig) = err auth_failed
the_challenge (auth_ok v) = err auth_failed
the_challenge (job v id spend sealed) = err auth_failed
the_challenge (done v id preamble chunk) = err auth_failed
the_challenge (fail v id) = err auth_failed

abbrev pub the_auth_ok : TunnelFrame → Result TunnelError (Unit {0})
the_auth_ok (auth_ok v) = if v == 1 then ok tt else err auth_failed
the_auth_ok (hello v a) = err auth_failed
the_auth_ok (challenge v c) = err auth_failed
the_auth_ok (auth v sig) = err auth_failed
the_auth_ok (job v id spend sealed) = err auth_failed
the_auth_ok (done v id preamble chunk) = err auth_failed
the_auth_ok (fail v id) = err auth_failed

abbrev pub signed_or : Fallible Bytes → Result TunnelError Bytes
signed_or (ok sig) = ok sig
signed_or (err e) = err sign

module _ ⦃C : Primitives⦄ (json : FrameJson) (cfg : TunnelConfig) where
  -- The answer to a challenge.
  unfoldable pub answer_challenge : Array32 → Result TunnelError TunnelFrame
  answer_challenge c = do
    sig ← signed_or (tunnel_auth_sign cfg.account_sk c cfg.host_account cfg.broker_key_id)
    ok (auth 1 sig)

  -- The handshake of `serve_once`, within its time.
  unfoldable pub dial : Peer → Result TunnelError (Unit {0})
  unfolding ws_recv ws_send answer_challenge
  dial ws = do
    incoming ← ws_send json ws (hello 1 cfg.host_account)
    first ← ws_recv json incoming
    c ← the_challenge first.0
    frame ← answer_challenge c
    arrived ← ws_send json ws frame
    second ← ws_recv json (first.1 ++ arrived)
    the_auth_ok second.0

module _ ⦃H : Hpke⦄ where
  -- What a job is answered with.
  abbrev pub outcome : ℕ → Result ServeError ExecResponse → TunnelFrame
  outcome request_id (ok resp) = done 1 request_id resp.preamble resp.chunk
  outcome request_id (err e) = fail 1 request_id

  unfoldable pub on_job : H.Rng → Bytes → Upstream → Option TunnelFrame → Option TunnelFrame
  on_job rng host_sk complete none = none
  on_job rng host_sk complete (some (job v request_id spend_id sealed)) =
      if v == 1
      then some (outcome request_id (serve_sealed rng host_sk spend_id sealed complete))
      else none
  on_job rng host_sk complete (some (hello v a)) = none
  on_job rng host_sk complete (some (challenge v c)) = none
  on_job rng host_sk complete (some (auth v sig)) = none
  on_job rng host_sk complete (some (auth_ok v)) = none
  on_job rng host_sk complete (some (done v id preamble chunk)) = none
  on_job rng host_sk complete (some (fail v id)) = none

-- `run`: how long to wait before the next connection, after a good one or a failed one, and the
-- backoff from then on.
unfoldable pub wait_ms : ℕ → Bool → ℕ → ℕ × ℕ
wait_ms backoff_s good random =
    let b = if good then 1 else backoff_s in (b * 1000 + random % 1000, min (b * 2) 30)
