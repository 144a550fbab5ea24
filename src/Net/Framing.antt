-- ===== src/Net/Framing.antt =====
-- crates/lluma-net/src/framing.rs and error.rs: the request inside a capsule, in Binary HTTP. The
-- package bhttp is a parameter. A text is the list of its bytes.
use lluma.Common.{
  ℕ, ◌≡◌, refl, Option, none, some, [], Bytes, codes, Result, ok, ok_or, ◌>>=◌, ok_or-eq-ok,
}

-- What is read of a message: its control data, the header `content-type`, the content.
pub data Control : Type 0 where
  -- Method, scheme, authority and path.
  request : Bytes → Bytes → Bytes → Bytes → Control
  response : ℕ → Control

pub record Message : Type 0 where
  pub control : Control
  pub content_type : Option Bytes
  pub content : Bytes

pub record Bhttp : Type 0 where
  -- `write_bhttp` with a known length, and `read_bhttp`.
  pub write : Message → Option Bytes
  pub read : Bytes → Option Message
  -- `StatusCode::try_from`.
  pub status_code : ℕ → Option ℕ
  -- RFC 9292: a message that is written reads back; a status code is the number it is made of.
  pub read-write : (m : Message) (e : Bytes) → write m ≡ some e → read e ≡ some m
  pub status_code-same : (n s : ℕ) → status_code n ≡ some s → s ≡ n

pub data NetError : Type 0 where
  bootstrap encapsulation not_final bhttp http crypto : NetError
  relay : ℕ → NetError

pub record InnerRequest : Type 0 where
  pub method : Bytes
  pub path : Bytes
  pub content_type : Option Bytes
  pub body : Bytes

pub record InnerResponse : Type 0 where
  pub status : ℕ
  pub body : Bytes

-- `control().status()`, `control().method()` and `control().path()`.
abbrev pub status_of : Control → Option ℕ
status_of (request m s a p) = none
status_of (response n) = some n

abbrev pub method_of : Control → Option Bytes
method_of (request m s a p) = some m
method_of (response n) = none

abbrev pub path_of : Control → Option Bytes
path_of (request m s a p) = some p
path_of (response n) = none

-- The message of a request, with no authority.
abbrev pub request_message : InnerRequest → Message
request_message r = record {
  control = request r.method (codes "https") [] r.path;
  content_type = r.content_type;
  content = r.body;
}

module _ ⦃H : Bhttp⦄ where
  unfoldable pub encode_request : InnerRequest → Result NetError Bytes
  encode_request r = ok_or (H.write (request_message r)) bhttp

  unfoldable pub decode_response : Bytes → Result NetError InnerResponse
  decode_response bytes = do
    msg ← ok_or (H.read bytes) bhttp
    status ← ok_or (status_of msg.control) bhttp
    ok (record { status = status; body = msg.content })

  pub read-encode_request :
      (r : InnerRequest) (e : Bytes) → encode_request r ≡ ok e → H.read e ≡ some (request_message r)
  unfolding encode_request
  read-encode_request r e h =
      H.read-write (request_message r) e (ok_or-eq-ok (H.write (request_message r)) bhttp e h)

  pub decode_response-write :
      (status : ℕ) (ct : Option Bytes) (body e : Bytes)
      → H.write (record { control = response status; content_type = ct; content = body }) ≡ some e
      → decode_response e ≡ ok (record { status = status; body = body })
  unfolding decode_response
  decode_response-write status ct body e h = rw (H.read-write _ e h) refl
