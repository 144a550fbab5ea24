-- ===== src/Gateway.antt =====
-- crates/lluma-gateway/src/lib.rs: the gateway opens a capsule, lets only listed paths through, and
-- forwards to its configured origin. A text is the list of its bytes.
use lluma.Common.{
  same, ℕ, zero, suc, ◌-◌, Bool, true, false, not, ◌&&◌, ◌||◌, Option, none, some, List, [], ◌∷◌,
  ◌++◌, Bytes, codes, is_empty, ltb, leb, ◌==◌, map, Result, ok, err, ok_or, ensure, ◌>>=◌, ◌>>◌,
  if◌then◌else◌,
}
use lluma.Crypto.Account.{Fallible}
use lluma.Crypto.Ohttp.{Oblivious, ServerContext, ohttp_decapsulate, ohttp_seal_chunk}
use lluma.Net.Framing.{Bhttp, Message, response, method_of, path_of}
pub mod Paths
pub mod Exchange

-- `GatewayConfig`
pub record GatewayConfig : Type 0 where
  pub secret : Bytes
  pub origin_url : Bytes
  pub allowed_path_prefixes : List Bytes

pub data GatewayError : Type 0 where
  decapsulate bhttp bad_request forbidden upstream seal : GatewayError

-- `starts_with` with what follows, `split` at a byte.
unfoldable pub strip_prefix : Bytes → Bytes → Option Bytes
strip_prefix [] ys = some ys
strip_prefix (x ∷ xs) [] = none
strip_prefix (x ∷ xs) (y ∷ ys) = let rest = strip_prefix xs ys in if x == y then rest else none

abbrev pub cons_head : ℕ → List Bytes → List Bytes
cons_head b [] = (b ∷ []) ∷ []
cons_head b (s ∷ ss) = (b ∷ s) ∷ ss

unfoldable pub split_at : ℕ → Bytes → List Bytes
split_at c [] = [] ∷ []
split_at c (b ∷ bs) = let rest = split_at c bs in if b == c then [] ∷ rest else cons_head b rest

abbrev pub any_ : {A : Type 0} → (A → Bool) → List A → Bool
any_ p [] = false
any_ p (x ∷ xs) = p x || any_ p xs

abbrev pub starts_with_slash : Bytes → Bool
starts_with_slash [] = false
starts_with_slash (b ∷ bs) = b == b'/'

abbrev pub ends_with_slash : Bytes → Bool
ends_with_slash [] = false
ends_with_slash (b ∷ []) = b == b'/'
ends_with_slash (b ∷ c ∷ bs) = ends_with_slash (c ∷ bs)

-- `?`, `#`, `%`, a backslash, and every byte below 0x21.
abbrev pub rewritten : ℕ → Bool
rewritten b = b == 63 || (b == 35 || (b == 37 || (b == 92 || ltb b 33)))

-- An empty segment, `.` or `..`.
abbrev pub bad_segment : Bytes → Bool
bad_segment seg = is_empty seg || (same seg (codes ".") || same seg (codes ".."))

unfoldable pub prefix_matches : Bytes → Bytes → Bool
prefix_matches path p =
    if ends_with_slash p
    then (elim (strip_prefix p path) [ none ↦ false | some rest ↦ true ])
    else (same path p
        || (elim (strip_prefix p path) [ none ↦ false | some rest ↦ starts_with_slash rest ]))

unfoldable pub path_allowed : Bytes → List Bytes → Bool
path_allowed [] prefixes = false
path_allowed (first ∷ rest) prefixes =
    not (not (first == b'/') || any_ rewritten (first ∷ rest))
    && (not (any_ bad_segment (split_at b'/' rest))
        && any_ (prefix_matches (first ∷ rest)) prefixes)

-- `std::str::from_utf8`: how many bytes of a character are to come, and between which bounds the
-- next one lies.
abbrev pub utf8_lead : ℕ → Option (ℕ × ℕ × ℕ)
utf8_lead b =
    if ltb b 128
    then some (0, 128, 191)
    else if leb 194 b && leb b 223
    then some (1, 128, 191)
    else if b == 224
    then some (2, 160, 191)
    else if b == 237
    then some (2, 128, 159)
    else if leb 225 b && leb b 239
    then some (2, 128, 191)
    else if b == 240
    then some (3, 144, 191)
    else if leb 241 b && leb b 243
    then some (3, 128, 191)
    else if b == 244
    then some (3, 128, 143)
    else none

abbrev pub utf8_from : ℕ → ℕ → ℕ → Bytes → Bool
utf8_from zero lo hi [] = true
utf8_from (suc n) lo hi [] = false
utf8_from zero lo hi (b ∷ bs) = elim (utf8_lead b) [
  | none ↦ false
  | some (n, lo', hi') ↦ utf8_from n lo' hi' bs
]
utf8_from (suc n) lo hi (b ∷ bs) = leb lo b && (leb b hi && utf8_from n 128 191 bs)

unfoldable pub from_utf8 : Bytes → Option Bytes
from_utf8 bs = if utf8_from 0 128 191 bs then some bs else none

-- `to_ascii_uppercase`
abbrev pub upper : ℕ → ℕ
upper b = if leb 97 b && leb b 122 then b - 32 else b

-- The packages reqwest and url: a URL that parses, its normalised path, and the origin's answers to a
-- GET and a POST, each with the content type that is set: the status, and the body where it arrives.
pub record Origin : Type 1 where
  pub Url : Type 0
  pub parse : Bytes → Option Url
  pub path : Url → Bytes
  pub get : Url → Option Bytes → Option (ℕ × Option Bytes)
  pub post : Url → Option Bytes → Bytes → Option (ℕ × Option Bytes)

module _ ⦃O : Oblivious⦄ ⦃H : Bhttp⦄ ⦃W : Origin⦄ where
  abbrev pub without_error : {A : Type 0} → GatewayError → Fallible A → Result GatewayError A
  without_error e (ok a) = ok a
  without_error e (err x) = err e

  -- Step 2: the method in capitals, and the path.
  unfoldable pub read_control : Message → Result GatewayError (Bytes × Bytes × Message)
  read_control msg = do
    raw_method ← ok_or (method_of msg.control) bad_request
    method ← ok_or (from_utf8 raw_method) bad_request
    raw_path ← ok_or (path_of msg.control) bad_request
    path ← ok_or (from_utf8 raw_path) bad_request
    ok (map upper method, path, msg)

  unfoldable pub read_request : Bytes → Result GatewayError (Bytes × Bytes × Message)
  unfolding read_control
  read_request inner = do msg ← ok_or (H.read inner) bhttp; read_control msg

  -- Step 4, with the guard of step 3 in front.
  unfoldable pub forward : GatewayConfig → Bytes × Bytes × Message → Result GatewayError (ℕ × Bytes)
  forward cfg (method, path, msg) = do
    ensure (same method (codes "GET") || same method (codes "POST")) forbidden
    ensure (path_allowed path cfg.allowed_path_prefixes) forbidden
    parsed ← ok_or (W.parse (cfg.origin_url ++ path)) forbidden
    ensure (path_allowed (W.path parsed) cfg.allowed_path_prefixes) forbidden
    reply ←
        ok_or
          (if same method (codes "GET")
            then W.get parsed msg.content_type
            else W.post parsed msg.content_type msg.content)
          upstream
    body ← ok_or reply.1 upstream
    ok (reply.0, body)

  -- Step 5.
  unfoldable pub seal_reply : ServerContext → O.Seed → ℕ × Bytes → Result GatewayError Bytes
  seal_reply ctx seed (status, body) = do
    status_code ← ok_or (H.status_code status) bhttp
    resp_bhttp ←
        ok_or
          (H.write (record { control = response status_code; content_type = none; content = body }))
          bhttp
    without_error seal (ohttp_seal_chunk ctx seed resp_bhttp true).0

  unfoldable pub process : GatewayConfig → O.Seed → Bytes → Result GatewayError Bytes
  unfolding read_request forward seal_reply
  process cfg seed body = do
    opened ← without_error decapsulate (ohttp_decapsulate cfg.secret body)
    asked ← read_request opened.0
    reply ← forward cfg asked
    seal_reply opened.1 seed reply

  -- 200 with the sealed response, or 502 with nothing, whatever failed.
  abbrev pub respond : Result GatewayError Bytes → ℕ × Bytes
  respond (ok sealed) = (200, sealed)
  respond (err e) = (502, [])

  unfoldable pub handle : GatewayConfig → O.Seed → Bytes → ℕ × Bytes
  unfolding process
  handle cfg seed body = respond (process cfg seed body)
