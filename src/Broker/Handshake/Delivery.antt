-- ===== src/Broker/Handshake/Delivery.antt =====
-- crates/lluma-broker/src/tunnel.rs: what the reader of a socket hands to a waiter.
use lluma.Common.{
  ℕ, ◌≡◌, refl, ap, sym, subst, ◌∙◌, Bool, true, false, Option, none, some, [], ◌∷◌, List, length,
  Result, ltb, ok, err, is_ok, ◌==◌, arith, lookup, lookup-assign, Option-cases, Bool-cases, inl,
  inr,
}
use lluma.Core.Proto.{
  TunnelFrame, hello, challenge, auth, auth_ok, job, done, fail, ExecResponse,
  validate_exec_response,
}
use lluma.Broker.Tunnel.{TunnelRegistry, HostSocket, end_job, update, remove_id}
use lluma.Broker.Handshake.{
  WsMessage, text, binary, ping, pong, close, broken, FrameJson, is_pending, deliver, on_frame,
  on_message, valid_only, max_frame_bytes,
}

-- The id waits at the socket of a place.
abbrev pub waits : TunnelRegistry → ℕ → ℕ → Bool
waits t g id = elim (lookup t.heap g) [ none ↦ false | some sock ↦ is_pending sock.pending id ]

is_pending-remove_id : (js : List ℕ) (i : ℕ) → is_pending (remove_id js i) i ≡ false
is_pending-remove_id [] i = refl
is_pending-remove_id (j ∷ js) i = ground (arith, is_pending-remove_id js i)

end_job-waits : (t : TunnelRegistry) (g id : ℕ) → waits (end_job t g id) g id ≡ false
unfolding end_job update
end_job-waits t g id = elim (Option-cases (lookup t.heap g)) [
  | inl e ↦ ground (arith, e)
  | inr (sock, e) ↦
      let sock' : HostSocket = record sock { pending = remove_id sock.pending id } in
      ground (arith, e, lookup-assign t.heap g sock' g, is_pending-remove_id sock.pending id)
]

deliver-waits :
    (t t' : TunnelRegistry) (g id : ℕ) (resp : Option ExecResponse) (id' : ℕ) (r : ExecResponse)
    → deliver t g id resp ≡ (some (id', r), t')
    → (id' ≡ id) × (resp ≡ some r) × (waits t g id ≡ true) × (waits t' g id ≡ false)
unfolding deliver
deliver-waits t t' g id resp id' r h =
    let after : end_job t g id ≡ t' =
      ap (λ (p : Option (ℕ × ExecResponse) × TunnelRegistry). p.1) h in
    let freed : waits t' g id ≡ false =
      subst (λ u. waits u g id ≡ false) after (end_job-waits t g id) in
    elim (Option-cases (lookup t.heap g)) [
      | inl e ↦ absurd (ground (arith, h, e))
      | inr (sock, e) ↦ elim (Bool-cases (is_pending sock.pending id)) [
        | inr idle ↦ absurd (ground (arith, h, e, idle))
        | inl busy ↦ elim (Option-cases resp) [
          | inl none_ ↦ absurd (ground (arith, h, e, busy, none_))
          | inr (x, some_) ↦
              let same : (id' ≡ id) × (x ≡ r) = ground (arith, h, e, busy, some_) in
              (same.0, some_ ∙ ap some same.1, ground (arith, e, busy), freed)
        ]
      ]
    ]

is_ok-tt : {E : Type 0} (v : Result E (Unit {0})) → is_ok v ≡ true → v ≡ ok tt
is_ok-tt (ok u) h = refl
is_ok-tt (err e) h = absurd (ground (arith, h))

valid_only-valid : (x r : ExecResponse) → valid_only x ≡ some r → validate_exec_response r ≡ ok tt
valid_only-valid x r h = elim (Bool-cases (is_ok (validate_exec_response x))) [
  | inr bad ↦ absurd (ground (arith, h, bad))
  | inl good ↦
      let same : x ≡ r = ground (arith, h, good) in
      subst (λ y. validate_exec_response y ≡ ok tt) same (is_ok-tt (validate_exec_response x) good)
]

-- What a delivery says of the id and the response.
abbrev pub Delivers : TunnelRegistry → TunnelRegistry → ℕ → ℕ → ExecResponse → Type 0
Delivers t t' g id r =
    (validate_exec_response r ≡ ok tt) × (waits t g id ≡ true) × (waits t' g id ≡ false)

deliver-Delivers :
    (t t' : TunnelRegistry) (g id : ℕ) (x : ExecResponse) (id' : ℕ) (r : ExecResponse)
    → deliver t g id (valid_only x) ≡ (some (id', r), t')
    → Delivers t t' g id' r
deliver-Delivers t t' g id x id' r h =
    let (same, from, before, after) = deliver-waits t t' g id (valid_only x) id' r h in
    (
      valid_only-valid x r from,
      subst (λ i. waits t g i ≡ true) (sym same) before,
      subst (λ i. waits t' g i ≡ false) (sym same) after,
    )

on_frame-Delivers :
    (t t' : TunnelRegistry) (g id : ℕ) (frame : Option TunnelFrame) (r : ExecResponse)
    → on_frame t g frame ≡ (some (id, r), t')
    → Delivers t t' g id r
unfolding on_frame
on_frame-Delivers t t' g id none r h = absurd (ground (arith, h))
on_frame-Delivers t t' g id (some (done v i preamble chunk)) r h = elim (Bool-cases (v == 1)) [
  | inr other ↦ absurd (ground (arith, h, other))
  | inl one ↦
      let got : deliver t g i (valid_only (record { preamble = preamble; chunk = chunk }))
          ≡ (some (id, r), t') =
        ground (arith, h, one) in
      deliver-Delivers t t' g i (record { preamble = preamble; chunk = chunk }) id r got
]
on_frame-Delivers t t' g id (some (fail v i)) r h = elim (Bool-cases (v == 1)) [
  | inr other ↦ absurd (ground (arith, h, other))
  | inl one ↦
      let got : deliver t g i none ≡ (some (id, r), t') = ground (arith, h, one) in
      absurd (ground (arith, deliver-waits t t' g i none id r got))
]
on_frame-Delivers t t' g id (some (hello v a)) r h = absurd (ground (arith, h))
on_frame-Delivers t t' g id (some (challenge v c)) r h = absurd (ground (arith, h))
on_frame-Delivers t t' g id (some (auth v sig)) r h = absurd (ground (arith, h))
on_frame-Delivers t t' g id (some (auth_ok v)) r h = absurd (ground (arith, h))
on_frame-Delivers t t' g id (some (job v i spend sealed)) r h = absurd (ground (arith, h))

-- A response that the reader hands on was waited for: its id was pending at the socket that it came
-- in on, and no longer is, so that no second response is delivered for it; and the response passes
-- its own validation.
pub on_message-delivers :
    (json : FrameJson) (t t' : TunnelRegistry) (g id : ℕ) (m : WsMessage) (r : ExecResponse)
    → on_message json t g m ≡ some (some (id, r), t')
    → (validate_exec_response r ≡ ok tt) × (waits t g id ≡ true) × (waits t' g id ≡ false)
unfolding on_message
on_message-delivers json t t' g id (text s) r h =
    elim (Bool-cases (ltb max_frame_bytes (length s))) [
      | inl long ↦ absurd (ground (arith, h, long))
      | inr fits ↦
          let got : on_frame t g (json.from_str s) ≡ (some (id, r), t') = ground (arith, h, fits) in
          on_frame-Delivers t t' g id (json.from_str s) r got
    ]
on_message-delivers json t t' g id (binary b) r h = absurd (ground (arith, h))
on_message-delivers json t t' g id ping r h = absurd (ground (arith, h))
on_message-delivers json t t' g id pong r h = absurd (ground (arith, h))
on_message-delivers json t t' g id close r h = absurd (ground (arith, h))
on_message-delivers json t t' g id broken r h = absurd (ground (arith, h))
