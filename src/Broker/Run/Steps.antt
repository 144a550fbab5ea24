-- ===== src/Broker/Run/Steps.antt =====
-- crates/lluma-broker: every operation keeps the invariant of the store.
use lluma.Common.{ℕ, ◌/◌, List, [], ◌∷◌, arith}
use lluma.Core.Wire.{Array32, SpendId, AccountId}
use lluma.Core.Proto.{ReceiptSubmit, HostRegisterRequest, HeartbeatRequest, TrialRegisterRequest}
use lluma.Crypto.Primitives.{Primitives}
use lluma.Broker.Config.{BrokerConfig}
use lluma.Broker.Db.{Redb}
use lluma.Broker.Store.{Store, empty_store}
use lluma.Broker.Address.{Parsers}
use lluma.Broker.Ledger
use lluma.Broker.Ledger.Books.{row_of, grant_frame, debit_frame}
use lluma.Broker.Ledger.Conservation.{grant-BooksBalance, debit-BooksBalance, grant_row-Balances}
use lluma.Broker.Spent
use lluma.Broker.Counters.{
  bump_issued, bump_trial_granted, bump_issued-Updates, bump_trial_granted-Updates,
}
use lluma.Broker.Redeem.{redeem, redeem-Redeems}
use lluma.Broker.Receipts.{ingest, ingest-Ingests, host_account_id}
use lluma.Broker.Trial.{grant_trial, grant_trial-Grants, trial_account_id}
use lluma.Broker.Registry.{register, heartbeat, evict_stale}
use lluma.Broker.Registry.Rows.{register-Registers, heartbeat-Beats}
use lluma.Broker.Registry.Eviction.{evict_stale-Evicts}
use lluma.Broker.Run.Invariant.{IsSound, empty_store-IsSound}
use lluma.Broker.Run.{
  Call, redeems, inserts, grants, debits, issues, counts_trial, ingests, registers, beats, evicts,
  trials, Event, perform, step, run,
}

module _ ⦃R : Redb⦄ (cfg : BrokerConfig) where
  redeem-IsSound :
      (φ : R.Fault) (id : SpendId) (host : Array32) (s : Store)
      → IsSound cfg s
      → IsSound cfg ((redeem φ s cfg.epoch id host).1)
  redeem-IsSound φ id host s h = record {
    within_issued =
        λ k. ground (arith, redeem-Redeems φ s cfg.epoch id host 0 k, h.within_issued k);
    burned = λ j. ground (arith, redeem-Redeems φ s cfg.epoch id host j 0, h.burned j);
    backed = λ j. ground (arith, redeem-Redeems φ s cfg.epoch id host j 0, h.backed j, h.burned j);
    books = λ a. ground (arith, redeem-Redeems φ s cfg.epoch id host 0 0, h.books a);
    within_budget =
        λ d. ground (arith, redeem-Redeems φ s cfg.epoch id host 0 0, h.within_budget d);
    admitted = λ j. ground (arith, redeem-Redeems φ s cfg.epoch id host 0 0, h.admitted j);
  }

  insert-IsSound :
      (φ : R.Fault) (epoch : ℕ) (id : SpendId) (s : Store)
      → IsSound cfg s
      → IsSound cfg ((Spent.insert φ epoch s id).1)
  insert-IsSound φ epoch id s h = record {
    within_issued = λ k. ground (arith, Spent.insert-Spends φ epoch s id 0, h.within_issued k);
    burned = λ j. ground (arith, Spent.insert-Spends φ epoch s id j, h.burned j);
    backed = λ j. ground (arith, Spent.insert-Spends φ epoch s id j, h.backed j);
    books = λ a. ground (arith, Spent.insert-Spends φ epoch s id 0, h.books a);
    within_budget = λ d. ground (arith, Spent.insert-Spends φ epoch s id 0, h.within_budget d);
    admitted = λ j. ground (arith, Spent.insert-Spends φ epoch s id 0, h.admitted j);
  }

  evict-IsSound :
      (φ : R.Fault) (now : ℕ) (s : Store)
      → IsSound cfg s
      → IsSound cfg ((evict_stale φ s now cfg).1)
  evict-IsSound φ now s h = record {
    within_issued = λ k. ground (arith, evict_stale-Evicts φ s now cfg 0, h.within_issued k);
    burned = λ j. ground (arith, evict_stale-Evicts φ s now cfg 0, h.burned j);
    backed = λ j. ground (arith, evict_stale-Evicts φ s now cfg 0, h.backed j);
    books = λ a. ground (arith, evict_stale-Evicts φ s now cfg 0, h.books a);
    within_budget = λ d. ground (arith, evict_stale-Evicts φ s now cfg 0, h.within_budget d);
    admitted = λ j. ground (arith, evict_stale-Evicts φ s now cfg j, h.admitted j);
  }

  grant-IsSound :
      (φ : R.Fault) (a : AccountId) (n : ℕ) (s : Store)
      → IsSound cfg s
      → IsSound cfg (Ledger.grant φ s a n)
  grant-IsSound φ a n s h = record {
    within_issued = λ k. ground (arith, grant_frame φ s a n, h.within_issued k);
    burned = λ j. ground (arith, grant_frame φ s a n, h.burned j);
    backed = λ j. ground (arith, grant_frame φ s a n, h.backed j);
    books = grant-BooksBalance φ s a n (λ b. h.books b);
    within_budget = λ d. ground (arith, grant_frame φ s a n, h.within_budget d);
    admitted = λ j. ground (arith, grant_frame φ s a n, h.admitted j);
  }

  debit-IsSound :
      (φ : R.Fault) (a : AccountId) (n : ℕ) (s : Store)
      → IsSound cfg s
      → IsSound cfg ((Ledger.debit φ s a n).1)
  debit-IsSound φ a n s h = record {
    within_issued = λ k. ground (arith, debit_frame φ s a n, h.within_issued k);
    burned = λ j. ground (arith, debit_frame φ s a n, h.burned j);
    backed = λ j. ground (arith, debit_frame φ s a n, h.backed j);
    books = debit-BooksBalance φ s a n (λ b. h.books b);
    within_budget = λ d. ground (arith, debit_frame φ s a n, h.within_budget d);
    admitted = λ j. ground (arith, debit_frame φ s a n, h.admitted j);
  }

  issue-IsSound :
      (φ : R.Fault) (epoch n : ℕ) (s : Store)
      → IsSound cfg s
      → IsSound cfg ((bump_issued φ s epoch n).1)
  issue-IsSound φ epoch n s h = record {
    within_issued = λ k.
        ground (arith, bump_issued-Updates φ s epoch n k, h.within_issued epoch, h.within_issued k);
    burned = λ j. ground (arith, bump_issued-Updates φ s epoch n 0, h.burned j);
    backed = λ j. ground (arith, bump_issued-Updates φ s epoch n 0, h.backed j);
    books = λ a. ground (arith, bump_issued-Updates φ s epoch n 0, h.books a);
    within_budget = λ d. ground (arith, bump_issued-Updates φ s epoch n 0, h.within_budget d);
    admitted = λ j. ground (arith, bump_issued-Updates φ s epoch n 0, h.admitted j);
  }

  count_trial-IsSound :
      (φ : R.Fault) (epoch n : ℕ) (s : Store)
      → IsSound cfg s
      → IsSound cfg ((bump_trial_granted φ s epoch n).1)
  count_trial-IsSound φ epoch n s h = record {
    within_issued = λ k.
        ground (
          arith,
          bump_trial_granted-Updates φ s epoch n k,
          h.within_issued epoch,
          h.within_issued k,
        );
    burned = λ j. ground (arith, bump_trial_granted-Updates φ s epoch n 0, h.burned j);
    backed = λ j. ground (arith, bump_trial_granted-Updates φ s epoch n 0, h.backed j);
    books = λ a. ground (arith, bump_trial_granted-Updates φ s epoch n 0, h.books a);
    within_budget =
        λ d. ground (arith, bump_trial_granted-Updates φ s epoch n 0, h.within_budget d);
    admitted = λ j. ground (arith, bump_trial_granted-Updates φ s epoch n 0, h.admitted j);
  }

module _ ⦃C : Primitives⦄ ⦃R : Redb⦄ ⦃N : Parsers⦄ (cfg : BrokerConfig) where
  ingest-IsSound :
      (φ : R.Fault) (submit : ReceiptSubmit) (s : Store)
      → IsSound cfg s
      → IsSound cfg ((ingest φ s submit cfg).1)
  ingest-IsSound φ submit s h = record {
    within_issued = λ k. ground (arith, ingest-Ingests φ s submit cfg 0 0, h.within_issued k);
    burned = λ j. ground (arith, ingest-Ingests φ s submit cfg 0 0, h.burned j);
    backed = λ j. ground (arith, ingest-Ingests φ s submit cfg j 0, h.backed j);
    books = λ a. ground (
      arith,
      ingest-Ingests φ s submit cfg 0 a,
      h.books (host_account_id submit),
      grant_row-Balances (row_of s (host_account_id submit)) 1,
      h.books a,
    );
    within_budget = λ d. ground (arith, ingest-Ingests φ s submit cfg 0 0, h.within_budget d);
    admitted = λ j. ground (arith, ingest-Ingests φ s submit cfg 0 0, h.admitted j);
  }

  register-IsSound :
      (φ : R.Fault) (req : HostRegisterRequest) (now : ℕ) (s : Store)
      → IsSound cfg s
      → IsSound cfg ((register φ s req cfg now).1)
  register-IsSound φ req now s h = record {
    within_issued = λ k. ground (arith, register-Registers φ s req cfg now 0, h.within_issued k);
    burned = λ j. ground (arith, register-Registers φ s req cfg now 0, h.burned j);
    backed = λ j. ground (arith, register-Registers φ s req cfg now 0, h.backed j);
    books = λ a. ground (arith, register-Registers φ s req cfg now 0, h.books a);
    within_budget = λ d. ground (arith, register-Registers φ s req cfg now 0, h.within_budget d);
    admitted = λ j. ground (
      arith,
      register-Registers φ s req cfg now j,
      h.admitted req.body.host_account,
      h.admitted j,
    );
  }

  heartbeat-IsSound :
      (ψ φ : R.Fault) (seen : Store) (req : HeartbeatRequest) (now : ℕ) (s : Store)
      → IsSound cfg s
      → IsSound cfg ((heartbeat ψ φ seen s req now cfg).1)
  heartbeat-IsSound ψ φ seen req now s h = record {
    within_issued =
        λ k. ground (arith, heartbeat-Beats ψ φ seen s req now cfg 0, h.within_issued k);
    burned = λ j. ground (arith, heartbeat-Beats ψ φ seen s req now cfg 0, h.burned j);
    backed = λ j. ground (arith, heartbeat-Beats ψ φ seen s req now cfg 0, h.backed j);
    books = λ a. ground (arith, heartbeat-Beats ψ φ seen s req now cfg 0, h.books a);
    within_budget =
        λ d. ground (arith, heartbeat-Beats ψ φ seen s req now cfg 0, h.within_budget d);
    admitted = λ j. ground (
      arith,
      heartbeat-Beats ψ φ seen s req now cfg j,
      h.admitted req.body.host_account,
      h.admitted j,
    );
  }

  trial-IsSound :
      (φ : R.Fault) (req : TrialRegisterRequest) (day : ℕ) (s : Store)
      → IsSound cfg s
      → IsSound cfg ((grant_trial φ s req cfg day).1)
  trial-IsSound φ req day s h = record {
    within_issued = λ k. ground (
      arith,
      grant_trial-Grants φ s req cfg day 0 0 0 k,
      h.within_issued cfg.epoch,
      h.within_issued k,
    );
    burned = λ j. ground (arith, grant_trial-Grants φ s req cfg day 0 0 0 0, h.burned j);
    backed = λ j. ground (arith, grant_trial-Grants φ s req cfg day 0 0 0 0, h.backed j);
    books = λ a. ground (
      arith,
      grant_trial-Grants φ s req cfg day 0 0 a 0,
      h.books (trial_account_id req),
      grant_row-Balances (row_of s (trial_account_id req)) cfg.trial_grant,
      h.books a,
    );
    within_budget =
        λ d. ground (arith, grant_trial-Grants φ s req cfg day 0 d 0 0, h.within_budget d);
    admitted = λ j. ground (arith, grant_trial-Grants φ s req cfg day 0 0 0 0, h.admitted j);
  }

  perform-IsSound :
      (ψ φ : R.Fault) (now : ℕ) (s : Store) (call : Call)
      → IsSound cfg s
      → IsSound cfg (perform cfg ψ φ now s call)
  unfolding perform
  perform-IsSound ψ φ now s (redeems id host) h = redeem-IsSound cfg φ id host s h
  perform-IsSound ψ φ now s (inserts epoch id) h = insert-IsSound cfg φ epoch id s h
  perform-IsSound ψ φ now s (grants a n) h = grant-IsSound cfg φ a n s h
  perform-IsSound ψ φ now s (debits a n) h = debit-IsSound cfg φ a n s h
  perform-IsSound ψ φ now s (issues epoch n) h = issue-IsSound cfg φ epoch n s h
  perform-IsSound ψ φ now s (counts_trial epoch n) h = count_trial-IsSound cfg φ epoch n s h
  perform-IsSound ψ φ now s (ingests submit) h = ingest-IsSound φ submit s h
  perform-IsSound ψ φ now s (registers req) h = register-IsSound φ req now s h
  perform-IsSound ψ φ now s (beats seen req) h = heartbeat-IsSound ψ φ seen req now s h
  perform-IsSound ψ φ now s evicts h = evict-IsSound cfg φ now s h
  perform-IsSound ψ φ now s (trials req) h = trial-IsSound φ req (now / 86400) s h

  -- Every operation of the broker, whatever it returns and whatever fails, keeps the store sound: no
  -- epoch has more tokens redeemed than issued, a spend bound to a host is burned, a receipt on
  -- record credits the host its spend was bound to, each account's books balance, no day grants more
  -- trial credits than the budget, and an active host has made its steps of admission.
  pub step-IsSound : (s : Store) (ev : Event) → IsSound cfg s → IsSound cfg (step cfg s ev)
  unfolding step
  step-IsSound s ev h = perform-IsSound ev.read_fault ev.write_fault ev.now s ev.call h

  run_from-IsSound : (s : Store) (evs : List Event) → IsSound cfg s → IsSound cfg (run cfg s evs)
  unfolding run
  run_from-IsSound s [] h = h
  run_from-IsSound s (ev ∷ evs) h = run_from-IsSound (step cfg s ev) evs (step-IsSound s ev h)

  -- From the empty store, every sequence of operations, at any times and with storage faults
  -- anywhere, leads to a sound store: no epoch has more tokens redeemed than issued, a spend bound to
  -- a host is burned, a receipt on record credits the host that its spend was bound to, each account
  -- holds what it earned less what it spent until a counter saturates, no day grants more trial
  -- credits than the budget, and an active host has made its steps of admission.
  pub run-IsSound : (evs : List Event) → IsSound cfg (run cfg empty_store evs)
  run-IsSound evs = run_from-IsSound empty_store evs (empty_store-IsSound cfg)
