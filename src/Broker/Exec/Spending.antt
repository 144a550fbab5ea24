-- ===== src/Broker/Exec/Spending.antt =====
-- crates/lluma-broker/src/service.rs: `exec` spends a token only towards an active host, and answers
-- it once.
use lluma.Common.{
  ◌≡◌, ◌≢◌, ◌⊎◌, inl, inr, refl, Bool, true, false, none, some, String, List, Bytes, Result, ok,
  err, arith, Result-cases, subst, sym,
}
use lluma.Core.Proto.{ExecRequest}
use lluma.Crypto.Primitives.{Primitives}
use lluma.Crypto.Tokens.{BlindRsa, token_spend_id}
use lluma.Broker.Db.{Redb}
use lluma.Broker.Store.{Store}
use lluma.Broker.Address.{Parsers}
use lluma.Broker.Redeem.{redeem, redeem-Redeems, resolve_active_host, newly_spent, already_spent}
use lluma.Broker.Tunnel.{TunnelRegistry}
use lluma.Broker.Run.{Event, run}
use lluma.Broker.Run.Histories.{no_double_spend}
use lluma.Broker.Exec.{
  Response, refused, answered, coded, Route, ExecJson, Outside, ExecSetup, choose_route,
  after_spend, check_exec, spend_and_forward, exec_checked, exec,
}

abbrev pub is_answered : Response → Bool
is_answered (answered b) = true
is_answered resp = false

unanswered : (resp : Response) → ((b : Bytes) → resp ≢ answered b) → is_answered resp ≡ false
unanswered (answered b) h = absurd (h b refl)
unanswered (refused n c) h = refl
unanswered (coded c) h = refl

module _ ⦃C : Primitives⦄ ⦃B : BlindRsa⦄ ⦃R : Redb⦄ where
  -- What `exec` has done, by its response.
  abbrev pub Spends :
      Outside → ExecSetup → ExecRequest → Store → Response × Store × TunnelRegistry → Type 0
  Spends out st req s (resp, s', t') =
      let o = redeem out.write_fault s st.cfg.epoch (token_spend_id req.token) req.host_account in
      ((s' ≡ s) × (is_answered resp ≡ false))
      ⊎ ((o.0 ≡ ok newly_spent)
          × (s' ≡ o.1)
          × ((addr : String) × (resolve_active_host out.read_fault out.seen req.host_account
                ≡ ok (some addr))))

  abbrev Outcome :
      Outside → ExecSetup → ExecRequest → Store → Response × Store × TunnelRegistry → Type 0
  Outcome out st req s (resp, s', t') =
      let o = redeem out.write_fault s st.cfg.epoch (token_spend_id req.token) req.host_account in
      ((s' ≡ s) × ((b : Bytes) → resp ≢ answered b))
      ⊎ ((o.0 ≡ ok newly_spent)
          × (s' ≡ o.1)
          × ((addr : String) × (resolve_active_host out.read_fault out.seen req.host_account
                ≡ ok (some addr))))

  spend_and_forward-Outcome :
      (json : ExecJson) (out : Outside) (st : ExecSetup) (req : ExecRequest) (s : Store)
      (r : Result Response Route) (t : TunnelRegistry) (addr : String)
      → resolve_active_host out.read_fault out.seen req.host_account ≡ ok (some addr)
      → ((b : Bytes) → r ≢ err (answered b))
      → Outcome out st req s (spend_and_forward json out st req s r t)
  unfolding spend_and_forward after_spend
  spend_and_forward-Outcome json out st req s (err resp) t addr h ne =
      inl (refl, λ b e. ne b (ground (arith, e)))
  spend_and_forward-Outcome json out st req s (ok route) t addr h ne =
      elim (Result-cases
        (redeem out.write_fault s st.cfg.epoch (token_spend_id req.token) req.host_account).0) [
          | inl (newly_spent, e) ↦ inr (e, refl, (addr, h))
          | inl (already_spent, e) ↦ inl (
            ground (
              arith,
              e,
              redeem-Redeems out.write_fault s st.cfg.epoch (token_spend_id req.token)
                  req.host_account 0 0,
            ),
            λ b e'. ground (arith, e, e'),
          )
          | inr (bad, e) ↦ inl (
            ground (
              arith,
              e,
              redeem-Redeems out.write_fault s st.cfg.epoch (token_spend_id req.token)
                  req.host_account 0 0,
            ),
            λ b e'. ground (arith, e, e'),
          )
        ]

  exec_checked-Outcome :
      (json : ExecJson) (out : Outside) (st : ExecSetup) (req : ExecRequest) (s : Store)
      (t : TunnelRegistry)
      → Outcome out st req s (exec_checked json out st s t (ok req))
  unfolding exec_checked choose_route
  exec_checked-Outcome json out st req s t =
      elim (Result-cases (resolve_active_host out.read_fault out.seen req.host_account)) [
        | inr (e, h) ↦ rw h (inl (refl, λ b e'. ground (arith, e')))
        | inl (none, h) ↦ rw h (inl (refl, λ b e'. ground (arith, e')))
        | inl (some addr, h) ↦
            subst
              (λ c. Outcome out st req s (
                spend_and_forward json out st req s (choose_route c t req.host_account).0
                  (choose_route c t req.host_account).1))
              (sym h)
              (spend_and_forward-Outcome json out st req s _ _ addr h (λ b e'. ground (arith, e')))
      ]

  -- A request that passes its checks either leaves the store as it was and is not answered, or spends
  -- the token, once: then the host was resolved to an address in the store that the read transaction
  -- saw, the redeem found the id unspent, and
  -- the store is what the redeem transaction made of it. No request is answered without a spend.
  pub exec-Spends :
      (json : ExecJson) (out : Outside) (st : ExecSetup) (s : Store) (t : TunnelRegistry)
      (body : Bytes) (req : ExecRequest)
      → check_exec json st body ≡ ok req
      → Spends out st req s (exec json out st s t body)
  unfolding exec
  exec-Spends json out st s t body req h = rw h (elim (exec_checked-Outcome json out st req s t) [
    | inl (same, no_answer) ↦ inl (same, unanswered _ no_answer)
    | inr done ↦ inr done
  ])

module _ ⦃C : Primitives⦄ ⦃B : BlindRsa⦄ ⦃R : Redb⦄ ⦃N : Parsers⦄ where
  -- A token buys one answer: once a request was answered, no request with a token of the same id is,
  -- whatever the broker did in between and whichever host it names.
  pub exec_once :
      (json : ExecJson) (out out' : Outside) (st : ExecSetup) (s : Store) (t t' : TunnelRegistry)
      (body body' b b' : Bytes) (req req' : ExecRequest) (evs : List Event)
      → check_exec json st body ≡ ok req
      → check_exec json st body' ≡ ok req'
      → token_spend_id req.token ≡ token_spend_id req'.token
      → (exec json out st s t body).0 ≡ answered b
      → (exec json out' st (run st.cfg (exec json out st s t body).1 evs) t' body').0 ≢ answered b'
  exec_once json out out' st s t t' body body' b b' req req' evs h h' same got got' =
      elim (exec-Spends json out st s t body req h) [
        | inl (kept, no_answer) ↦ ground (arith, no_answer, got)
        | inr (spent, is, at) ↦
            elim (exec-Spends json out' st (run st.cfg (exec json out st s t body).1 evs) t' body'
              req' h') [
                | inl (kept, no_answer) ↦ ground (arith, no_answer, got')
                | inr (spent', is', at') ↦
                    no_double_spend st.cfg out.write_fault out'.write_fault s st.cfg.epoch
                      st.cfg.epoch (token_spend_id req.token) req.host_account req'.host_account evs
                      spent
                      (subst
                        (λ u.
                          (redeem out'.write_fault (run st.cfg u evs) st.cfg.epoch
                            (token_spend_id req.token) req'.host_account).0
                          ≡ ok newly_spent)
                        is
                        (subst
                          (λ i.
                            (redeem out'.write_fault (run st.cfg (exec json out st s t body).1 evs)
                              st.cfg.epoch i req'.host_account).0
                            ≡ ok newly_spent)
                          (sym same) spent'))
              ]
      ]
