-- ===== src/Net/Agent.antt =====
-- crates/lluma-net/src/agent.rs: one round trip of a client through the relay.
use lluma.Common.{
  ℕ, Bool, ◌&&◌, leb, Option, ◌++◌, Bytes, codes, Result, ok, err, ok_or, ensure, ◌>>=◌, ◌>>◌,
}
use lluma.Crypto.Account.{Fallible}
use lluma.Crypto.Ohttp.{Oblivious, ClientContext, ohttp_encapsulate, ohttp_open_chunk}
use lluma.Net.Framing.{
  Bhttp, NetError, InnerRequest, InnerResponse, encapsulation, not_final, http, crypto, relay,
  encode_request, decode_response,
}

-- A POST to a URL with a content type and a body: the status, and the body where it arrives.
abbrev pub Post : Type 0
Post = Bytes → Bytes → Bytes → Option (ℕ × Option Bytes)

-- `StatusCode::is_success`
abbrev pub is_success : ℕ → Bool
is_success n = leb 200 n && leb n 299

-- `OhttpAgent`, without its connections.
pub record OhttpAgent : Type 0 where
  pub relay_url : Bytes
  pub key_config : Bytes

-- `map_err(|_| e)` on an error of crypto.
abbrev pub in_place_of : {A : Type 0} → NetError → Fallible A → Result NetError A
in_place_of e (ok a) = ok a
in_place_of e (err x) = err e

module _ ⦃O : Oblivious⦄ ⦃H : Bhttp⦄ where
  -- From the reply on.
  unfoldable pub receive : ClientContext → Option (ℕ × Option Bytes) → Result NetError InnerResponse
  receive ctx reply = do
    r ← ok_or reply http
    body ← ok_or r.1 http
    ensure (is_success r.0) (relay r.0)
    opened ← in_place_of crypto (ohttp_open_chunk ctx body).0
    ensure opened.1 not_final
    decode_response opened.0

  unfoldable pub round_trip :
      OhttpAgent → Post → O.Seed → InnerRequest → Result NetError InnerResponse
  unfolding receive
  round_trip agent post seed req = do
    inner ← encode_request req
    made ← in_place_of encapsulation (ohttp_encapsulate seed agent.key_config inner)
    receive made.1 (post (agent.relay_url ++ codes "/ohttp") (codes "message/ohttp-req") made.0)
