-- ===== src/Gateway/Exchange.antt =====
-- crates/lluma-net/src/agent.rs and crates/lluma-gateway/src/lib.rs together: what a client gets back
-- through the gateway is the origin's answer to the request that it made.
use lluma.Common.{
  Option, ℕ, ◌≡◌, refl, ap, sym, subst, ◌∙◌, true, none, some, ◌++◌, Bytes, codes, map, Result, ok,
  err, ok_or, ◌>>=◌, >>=-eq-ok, ok_or-step, ok-injective, arith, same, same-≡, ◌⊎◌, inl, inr,
  Bool-cases, Option-cases,
}
use lluma.Crypto.Account.{Fallible}
use lluma.Crypto.Ohttp.{
  Oblivious, ClientContext, ohttp_keygen, ohttp_encapsulate, ohttp_decapsulate, ohttp_seal_chunk,
}
use lluma.Crypto.Ohttp.Exchange.{
  ohttp_decapsulate-ohttp_encapsulate, ohttp_open_chunk-ohttp_seal_chunk,
}
use lluma.Net.Framing.{
  Bhttp, Message, NetError, InnerRequest, InnerResponse, response, encapsulation, request_message,
  encode_request, read-encode_request, decode_response-write,
}
use lluma.Net.Agent.{OhttpAgent, Post, round_trip, receive, in_place_of}
use lluma.Gateway.{
  GatewayConfig, GatewayError, decapsulate, from_utf8, upper, Origin, path_allowed, upstream,
  read_control, read_request, bad_request, forward, seal_reply, process, handle, respond,
  without_error,
}

module _ ⦃O : Oblivious⦄ ⦃H : Bhttp⦄ ⦃W : Origin⦄ where
  -- A relay that passes the capsule to the gateway and its response back.
  abbrev pub through : GatewayConfig → O.Seed → Post
  through cfg seed url ct capsule =
      some ((handle cfg seed capsule).0, some (handle cfg seed capsule).1)

  in_place_of-eq-ok :
      {A : Type 0} (e : NetError) (r : Fallible A) (a : A) → in_place_of e r ≡ ok a → r ≡ ok a
  in_place_of-eq-ok e (ok b) a h = ground (arith, h)
  in_place_of-eq-ok e (err x) a h = absurd (ground (arith, h))

  without_error-eq-ok :
      {A : Type 0} (e : GatewayError) (r : Fallible A) (a : A) → without_error e r ≡ ok a → r ≡ ok a
  without_error-eq-ok e (ok b) a h = ground (arith, h)
  without_error-eq-ok e (err x) a h = absurd (ground (arith, h))

  from_utf8-same : (b c : Bytes) → from_utf8 b ≡ some c → c ≡ b
  unfolding from_utf8
  from_utf8-same b c h = ground (arith, h)

  -- What the gateway reads of the client's request.
  read_control-request_message :
      (req : InnerRequest) (asked : Bytes × Bytes × Message)
      → read_control (request_message req) ≡ ok asked
      → asked ≡ (map upper req.method, req.path, request_message req)
  unfolding read_control
  read_control-request_message req asked h =
      let (method, m, h1) = ok_or-step (from_utf8 req.method) bad_request _ h in
      let (path, p, h2) = ok_or-step (from_utf8 req.path) bad_request _ h1 in
      let same_method = from_utf8-same req.method method m in
      let same_path = from_utf8-same req.path path p in
      sym (ok-injective h2)
      ∙ ap (λ (w : Bytes). (map upper w, path, request_message req)) same_method
      ∙ ap (λ (w : Bytes). (map upper req.method, w, request_message req)) same_path

  read_request-encode_request :
      (req : InnerRequest) (inner : Bytes) (asked : Bytes × Bytes × Message)
      → encode_request req ≡ ok inner
      → read_request inner ≡ ok asked
      → asked ≡ (map upper req.method, req.path, request_message req)
  unfolding read_request
  read_request-encode_request req inner asked h got = read_control-request_message req asked (
      subst (λ o. ok_or o GatewayError.bhttp >>= read_control ≡ ok asked)
        (read-encode_request req inner h) got)

  -- What the client reads of the gateway's response.
  receive-seal_reply :
      (cr : O.ClientResponse) (sr : O.ServerResponse) (seed : O.Seed) (status : ℕ)
      (body sealed : Bytes)
      → O.IsPaired cr sr
      → seal_reply (some sr) seed (status, body) ≡ ok sealed
      → receive (some cr) (some (200, some sealed)) ≡ ok (record { status = status; body = body })
  unfolding seal_reply receive
  receive-seal_reply cr sr seed status body sealed paired h =
      let (code, c, h1) = ok_or-step (H.status_code status) GatewayError.bhttp _ h in
      let answer : Message = record {
        control = response code;
        content_type = none;
        content = body;
      } in
      let (text, w, h2) = ok_or-step (H.write answer) GatewayError.bhttp _ h1 in
      let put =
        without_error-eq-ok GatewayError.seal (ohttp_seal_chunk (some sr) seed text true).0 sealed
          h2 in
      let (got, _, _, _) =
        ohttp_open_chunk-ohttp_seal_chunk cr sr seed text sealed true paired put in
      rw got (
        decode_response-write code none body text w
        ∙ ap (λ (n : ℕ). ok (record { status = n; body = body }))
            (H.status_code-same status code c))

  round_trip-parts :
      (agent : OhttpAgent) (post : Post) (seed : O.Seed) (req : InnerRequest) (resp : InnerResponse)
      → round_trip agent post seed req ≡ ok resp
      → (inner : Bytes) × (capsule : Bytes) × (ctx : ClientContext) × (encode_request req
          ≡ ok inner)
        × (ohttp_encapsulate seed agent.key_config inner ≡ ok (capsule, ctx))
        × (receive ctx
              (post (agent.relay_url ++ codes "/ohttp") (codes "message/ohttp-req") capsule)
            ≡ ok resp)
  unfolding round_trip
  round_trip-parts agent post seed req resp h =
      let (inner, e, h1) = >>=-eq-ok (encode_request req) _ h in
      let ((capsule, ctx), m, h2) =
        >>=-eq-ok (in_place_of encapsulation (ohttp_encapsulate seed agent.key_config inner))
          (λ made.
            receive made.1
              (post (agent.relay_url ++ codes "/ohttp") (codes "message/ohttp-req") made.0))
          h1 in
      (inner, capsule, ctx, e, in_place_of-eq-ok encapsulation _ (capsule, ctx) m, h2)

  -- A failure at the gateway is a 502, which the client does not take for an answer.
  receive-respond :
      (ctx : ClientContext) (r : Result GatewayError Bytes) (resp : InnerResponse)
      → receive ctx (some ((respond r).0, some (respond r).1)) ≡ ok resp
      → (sealed : Bytes) × (r ≡ ok sealed) × (receive ctx (some (200, some sealed)) ≡ ok resp)
  receive-respond ctx (ok sealed) resp h = (sealed, refl, h)
  receive-respond ctx (err e) resp h = absurd (unfold receive in ground (arith, h))

  process-parts :
      (cfg : GatewayConfig) (seed : O.Seed) (capsule inner sealed : Bytes) (sr : O.ServerResponse)
      (req : InnerRequest)
      → ohttp_decapsulate cfg.secret capsule ≡ ok (inner, some sr)
      → encode_request req ≡ ok inner
      → process cfg seed capsule ≡ ok sealed
      → (reply : ℕ × Bytes) × (forward cfg (map upper req.method, req.path, request_message req)
          ≡ ok reply)
        × (seal_reply (some sr) seed reply ≡ ok sealed)
  unfolding process
  process-parts cfg seed capsule inner sealed sr req opens e h =
      let (opened, o, h1) =
        >>=-eq-ok (without_error decapsulate (ohttp_decapsulate cfg.secret capsule)) _ h in
      let is_opened = ok-injective (
        sym opens
        ∙ without_error-eq-ok decapsulate (ohttp_decapsulate cfg.secret capsule) opened o) in
      let (asked, a, h2) = >>=-eq-ok (read_request opened.0) _ h1 in
      let a' = subst (λ p. read_request p.0 ≡ ok asked) (sym is_opened) a in
      let is_asked = read_request-encode_request req inner asked e a' in
      let (reply, f, h3) = >>=-eq-ok (forward cfg asked) (seal_reply opened.1 seed) h2 in
      (
        reply,
        subst (λ q. forward cfg q ≡ ok reply) is_asked f,
        subst (λ o. seal_reply o.1 seed reply ≡ ok sealed) (sym is_opened) h3,
      )

  round_trip-forward :
      (rng : O.Rng) (key_id : ℕ) (agent : OhttpAgent) (cfg : GatewayConfig)
      (seed gateway_seed : O.Seed) (req : InnerRequest) (resp : InnerResponse)
      → (ohttp_keygen rng key_id).0 ≡ ok (cfg.secret, agent.key_config)
      → round_trip agent (through cfg gateway_seed) seed req ≡ ok resp
      → forward cfg (map upper req.method, req.path, request_message req)
        ≡ ok (resp.status, resp.body)
  round_trip-forward rng key_id agent cfg seed gateway_seed req resp hk h =
      let (inner, capsule, ctx, e, m, got) =
        round_trip-parts agent (through cfg gateway_seed) seed req resp h in
      let (cr, sr, is, opens, paired) =
        ohttp_decapsulate-ohttp_encapsulate rng key_id cfg.secret agent.key_config inner capsule
          seed ctx hk m in
      let (sealed, p, read) =
        receive-respond ctx (process cfg gateway_seed capsule) resp (unfold handle in got) in
      let ((status, body), f, put) =
        process-parts cfg gateway_seed capsule inner sealed sr req opens e p in
      let answer = receive-seal_reply cr sr gateway_seed status body sealed paired put in
      let same_answer =
        ok-injective
          (sym answer ∙ subst (λ c. receive c (some (200, some sealed)) ≡ ok resp) is read) in
      f ∙ ap (λ (r : InnerResponse). ok (r.status, r.body)) same_answer

  -- What the origin is asked, and what it answers: a GET, or a POST with the body.
  abbrev pub Answers : InnerRequest → W.Url → InnerResponse → Type 0
  Answers req url resp =
      ((map upper req.method ≡ codes "GET")
        × (W.get url req.content_type ≡ some (resp.status, some resp.body)))
      ⊎ ((map upper req.method ≡ codes "POST")
          × (W.post url req.content_type req.body ≡ some (resp.status, some resp.body)))

  whole_reply : Option (ℕ × Option Bytes) → Result GatewayError (ℕ × Bytes)
  whole_reply reply = do r ← ok_or reply upstream; b ← ok_or r.1 upstream; ok (r.0, b)

  whole_reply-body :
      (reply : Option (ℕ × Option Bytes)) (status : ℕ) (body : Bytes)
      → whole_reply reply ≡ ok (status, body)
      → reply ≡ some (status, some body)
  unfolding whole_reply
  whole_reply-body none status body h = absurd (ground (arith, h))
  whole_reply-body (some (s, none)) status body h = absurd (ground (arith, h))
  whole_reply-body (some (s, some b)) status body h = ground (arith, h)

  forward-parts :
      (cfg : GatewayConfig) (req : InnerRequest) (resp : InnerResponse)
      → forward cfg (map upper req.method, req.path, request_message req)
        ≡ ok (resp.status, resp.body)
      → (path_allowed req.path cfg.allowed_path_prefixes ≡ true)
        × (url : W.Url) × (W.parse (cfg.origin_url ++ req.path) ≡ some url)
        × (path_allowed (W.path url) cfg.allowed_path_prefixes ≡ true)
        × Answers req url resp
  unfolding forward whole_reply
  forward-parts cfg req resp h =
      let m = map upper req.method in
      elim (Bool-cases (path_allowed req.path cfg.allowed_path_prefixes)) [
        | inr bad ↦ absurd (ground (arith, h, bad))
        | inl listed ↦ elim (Option-cases (W.parse (cfg.origin_url ++ req.path))) [
          | inl none_ ↦ absurd (ground (arith, h, listed, none_))
          | inr (url, parsed) ↦
              elim (Bool-cases (path_allowed (W.path url) cfg.allowed_path_prefixes)) [
                | inr bad ↦ absurd (ground (arith, h, listed, parsed, bad))
                | inl again ↦ (
                  listed,
                  url,
                  parsed,
                  again,
                  elim (Bool-cases (same m (codes "GET"))) [
                    | inl get ↦ inl (
                      same-≡ m (codes "GET") get,
                      whole_reply-body (W.get url req.content_type) resp.status resp.body
                          (ground (arith, h, listed, parsed, again, get)),
                    )
                    | inr other ↦ elim (Bool-cases (same m (codes "POST"))) [
                      | inl post ↦ inr (
                        same-≡ m (codes "POST") post,
                        whole_reply-body (W.post url req.content_type req.body) resp.status
                            resp.body (ground (arith, h, listed, parsed, again, other, post)),
                      )
                      | inr neither ↦ absurd (ground (arith, h, other, neither))
                    ]
                  ],
                )
              ]
        ]
      ]

  -- Through a gateway whose key configuration the client has, and a relay that passes capsules on, a
  -- client gets an answer only if it asked for a GET or a POST (in any case of letters) of a path that
  -- the gateway allows, and if the URL of the origin with this path parses to one whose path is
  -- allowed as well. The answer is then the status and the body that the origin gave to that method on
  -- that URL, with the client's content type and, for a POST, the client's body.
  pub round_trip-forwards :
      (rng : O.Rng) (key_id : ℕ) (agent : OhttpAgent) (cfg : GatewayConfig)
      (seed gateway_seed : O.Seed) (req : InnerRequest) (resp : InnerResponse)
      → (ohttp_keygen rng key_id).0 ≡ ok (cfg.secret, agent.key_config)
      → round_trip agent (through cfg gateway_seed) seed req ≡ ok resp
      → (path_allowed req.path cfg.allowed_path_prefixes ≡ true)
        × (url : W.Url) × (W.parse (cfg.origin_url ++ req.path) ≡ some url)
        × (path_allowed (W.path url) cfg.allowed_path_prefixes ≡ true)
        × Answers req url resp
  round_trip-forwards rng key_id agent cfg seed gateway_seed req resp hk h =
      forward-parts cfg req resp
        (round_trip-forward rng key_id agent cfg seed gateway_seed req resp hk h)
