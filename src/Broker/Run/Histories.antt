-- ===== src/Broker/Run/Histories.antt =====
-- crates/lluma-broker: what the store never forgets, over every sequence of operations.
use lluma.Common.{ℕ, ◌/◌, ◌≡◌, ◌≢◌, ◌⊎◌, Bool, true, false, List, [], ◌∷◌, ok, arith}
use lluma.Core.Wire.{Array32, SpendId, AccountId}
use lluma.Core.Proto.{ReceiptSubmit, HostRegisterRequest, HeartbeatRequest, TrialRegisterRequest}
use lluma.Crypto.Primitives.{Primitives}
use lluma.Issuer.SpentSet.{inserted}
use lluma.Broker.Config.{BrokerConfig}
use lluma.Broker.Db.{Redb}
use lluma.Broker.Store.{Store, ReceiptRow}
use lluma.Broker.Address.{Parsers}
use lluma.Broker.Ledger
use lluma.Broker.Ledger.Books.{grant_frame, debit_frame}
use lluma.Broker.Spent
use lluma.Broker.Spent.{is_some}
use lluma.Broker.Counters.{
  bump_issued, bump_trial_granted, bump_issued-Updates, bump_trial_granted-Updates,
}
use lluma.Broker.Redeem.{redeem, redeem-Redeems, newly_spent}
use lluma.Broker.Receipts.{ingest, ingest-Ingests, credited}
use lluma.Broker.Trial.{grant_trial, grant_trial-Grants, granted}
use lluma.Broker.Registry.{register, heartbeat, evict_stale}
use lluma.Broker.Registry.Rows.{register-Registers, heartbeat-Beats}
use lluma.Broker.Registry.Eviction.{evict_stale-Evicts}
use lluma.Broker.Run.{
  Call, redeems, inserts, grants, debits, issues, counts_trial, ingests, registers, beats, evicts,
  trials, Event, perform, step, run,
}

-- What was true is still true.
abbrev Stays : Bool → Bool → Type 0
Stays b b' = (b ≡ false) ⊎ (b' ≡ true)

Stays-trans : (a b c : Bool) → Stays a b → Stays b c → Stays a c
Stays-trans a b c h h' = ground arith

-- Every id that is spent, every receipt on record and every account that had its trial.
record IsKept ⦃R : Redb⦄ (s s' : Store) : Type 0 where
  spends : (j : ℕ) → Stays (is_some (R.rows ℕ s.spent j)) (is_some (R.rows ℕ s'.spent j))
  receipts :
      (j : ℕ)
      → Stays (is_some (R.rows ReceiptRow s.receipts j)) (is_some (R.rows ReceiptRow s'.receipts j))
  trials :
      (j : ℕ) → Stays (is_some (R.rows ℕ s.trial_accts j)) (is_some (R.rows ℕ s'.trial_accts j))

module _ ⦃R : Redb⦄ where
  IsKept-refl : (s : Store) → IsKept s s
  IsKept-refl s = record {
    spends = λ j. ground arith;
    receipts = λ j. ground arith;
    trials = λ j. ground arith;
  }

  IsKept-trans : (s t u : Store) → IsKept s t → IsKept t u → IsKept s u
  IsKept-trans s t u h h' = record {
    spends = λ j. Stays-trans _ _ _ (h.spends j) (h'.spends j);
    receipts = λ j. Stays-trans _ _ _ (h.receipts j) (h'.receipts j);
    trials = λ j. Stays-trans _ _ _ (h.trials j) (h'.trials j);
  }

module _ ⦃R : Redb⦄ (cfg : BrokerConfig) where
  redeem-IsKept :
      (φ : R.Fault) (id : SpendId) (host : Array32) (s : Store)
      → IsKept s ((redeem φ s cfg.epoch id host).1)
  redeem-IsKept φ id host s = record {
    spends = λ j. ground (arith, redeem-Redeems φ s cfg.epoch id host j 0);
    receipts = λ j. ground (arith, redeem-Redeems φ s cfg.epoch id host j 0);
    trials = λ j. ground (arith, redeem-Redeems φ s cfg.epoch id host j 0);
  }

  insert-IsKept :
      (φ : R.Fault) (epoch : ℕ) (id : SpendId) (s : Store)
      → IsKept s ((Spent.insert φ epoch s id).1)
  insert-IsKept φ epoch id s = record {
    spends = λ j. ground (arith, Spent.insert-Spends φ epoch s id j);
    receipts = λ j. ground (arith, Spent.insert-Spends φ epoch s id j);
    trials = λ j. ground (arith, Spent.insert-Spends φ epoch s id j);
  }

  evict-IsKept : (φ : R.Fault) (now : ℕ) (s : Store) → IsKept s ((evict_stale φ s now cfg).1)
  evict-IsKept φ now s = record {
    spends = λ j. ground (arith, evict_stale-Evicts φ s now cfg 0);
    receipts = λ j. ground (arith, evict_stale-Evicts φ s now cfg 0);
    trials = λ j. ground (arith, evict_stale-Evicts φ s now cfg 0);
  }

  grant-IsKept : (φ : R.Fault) (a : AccountId) (n : ℕ) (s : Store) → IsKept s (Ledger.grant φ s a n)
  grant-IsKept φ a n s = record {
    spends = λ j. ground (arith, grant_frame φ s a n);
    receipts = λ j. ground (arith, grant_frame φ s a n);
    trials = λ j. ground (arith, grant_frame φ s a n);
  }

  debit-IsKept :
      (φ : R.Fault) (a : AccountId) (n : ℕ) (s : Store) → IsKept s ((Ledger.debit φ s a n).1)
  debit-IsKept φ a n s = record {
    spends = λ j. ground (arith, debit_frame φ s a n);
    receipts = λ j. ground (arith, debit_frame φ s a n);
    trials = λ j. ground (arith, debit_frame φ s a n);
  }

  issue-IsKept : (φ : R.Fault) (epoch n : ℕ) (s : Store) → IsKept s ((bump_issued φ s epoch n).1)
  issue-IsKept φ epoch n s = record {
    spends = λ j. ground (arith, bump_issued-Updates φ s epoch n 0);
    receipts = λ j. ground (arith, bump_issued-Updates φ s epoch n 0);
    trials = λ j. ground (arith, bump_issued-Updates φ s epoch n 0);
  }

  count_trial-IsKept :
      (φ : R.Fault) (epoch n : ℕ) (s : Store) → IsKept s ((bump_trial_granted φ s epoch n).1)
  count_trial-IsKept φ epoch n s = record {
    spends = λ j. ground (arith, bump_trial_granted-Updates φ s epoch n 0);
    receipts = λ j. ground (arith, bump_trial_granted-Updates φ s epoch n 0);
    trials = λ j. ground (arith, bump_trial_granted-Updates φ s epoch n 0);
  }

module _ ⦃C : Primitives⦄ ⦃R : Redb⦄ ⦃N : Parsers⦄ (cfg : BrokerConfig) where
  ingest-IsKept :
      (φ : R.Fault) (submit : ReceiptSubmit) (s : Store) → IsKept s ((ingest φ s submit cfg).1)
  ingest-IsKept φ submit s = record {
    spends = λ j. ground (arith, ingest-Ingests φ s submit cfg j 0);
    receipts = λ j. ground (arith, ingest-Ingests φ s submit cfg j 0);
    trials = λ j. ground (arith, ingest-Ingests φ s submit cfg j 0);
  }

  register-IsKept :
      (φ : R.Fault) (req : HostRegisterRequest) (now : ℕ) (s : Store)
      → IsKept s ((register φ s req cfg now).1)
  register-IsKept φ req now s = record {
    spends = λ j. ground (arith, register-Registers φ s req cfg now 0);
    receipts = λ j. ground (arith, register-Registers φ s req cfg now 0);
    trials = λ j. ground (arith, register-Registers φ s req cfg now 0);
  }

  heartbeat-IsKept :
      (ψ φ : R.Fault) (seen : Store) (req : HeartbeatRequest) (now : ℕ) (s : Store)
      → IsKept s ((heartbeat ψ φ seen s req now cfg).1)
  heartbeat-IsKept ψ φ seen req now s = record {
    spends = λ j. ground (arith, heartbeat-Beats ψ φ seen s req now cfg 0);
    receipts = λ j. ground (arith, heartbeat-Beats ψ φ seen s req now cfg 0);
    trials = λ j. ground (arith, heartbeat-Beats ψ φ seen s req now cfg 0);
  }

  trial-IsKept :
      (φ : R.Fault) (req : TrialRegisterRequest) (day : ℕ) (s : Store)
      → IsKept s ((grant_trial φ s req cfg day).1)
  trial-IsKept φ req day s = record {
    spends = λ j. ground (arith, grant_trial-Grants φ s req cfg day j 0 0 0);
    receipts = λ j. ground (arith, grant_trial-Grants φ s req cfg day j 0 0 0);
    trials = λ j. ground (arith, grant_trial-Grants φ s req cfg day j 0 0 0);
  }

  perform-IsKept :
      (ψ φ : R.Fault) (now : ℕ) (s : Store) (call : Call) → IsKept s (perform cfg ψ φ now s call)
  unfolding perform
  perform-IsKept ψ φ now s (redeems id host) = redeem-IsKept cfg φ id host s
  perform-IsKept ψ φ now s (inserts epoch id) = insert-IsKept cfg φ epoch id s
  perform-IsKept ψ φ now s (grants a n) = grant-IsKept cfg φ a n s
  perform-IsKept ψ φ now s (debits a n) = debit-IsKept cfg φ a n s
  perform-IsKept ψ φ now s (issues epoch n) = issue-IsKept cfg φ epoch n s
  perform-IsKept ψ φ now s (counts_trial epoch n) = count_trial-IsKept cfg φ epoch n s
  perform-IsKept ψ φ now s (ingests submit) = ingest-IsKept φ submit s
  perform-IsKept ψ φ now s (registers req) = register-IsKept φ req now s
  perform-IsKept ψ φ now s (beats seen req) = heartbeat-IsKept ψ φ seen req now s
  perform-IsKept ψ φ now s evicts = evict-IsKept cfg φ now s
  perform-IsKept ψ φ now s (trials req) = trial-IsKept φ req (now / 86400) s

  run-IsKept : (s : Store) (evs : List Event) → IsKept s (run cfg s evs)
  unfolding run step
  run-IsKept s [] = IsKept-refl s
  run-IsKept s (ev ∷ evs) =
      IsKept-trans s (step cfg s ev) (run cfg s (ev ∷ evs))
        (perform-IsKept ev.read_fault ev.write_fault ev.now s ev.call)
        (run-IsKept (step cfg s ev) evs)

  -- Once a token is spent by `exec`, no operation in between and no later time, epoch or host lets
  -- `exec` spend it again.
  pub no_double_spend :
      (φ φ' : R.Fault) (s : Store) (epoch epoch' : ℕ) (id : SpendId) (host host' : Array32)
      (evs : List Event)
      → (redeem φ s epoch id host).0 ≡ ok newly_spent
      → (redeem φ' (run cfg (redeem φ s epoch id host).1 evs) epoch' id host').0 ≢ ok newly_spent
  no_double_spend φ φ' s epoch epoch' id host host' evs h h' =
      let s1 = (redeem φ s epoch id host).1 in
      ground (
        arith,
        redeem-Redeems φ s epoch id host id 0,
        (run-IsKept s1 evs).spends id,
        redeem-Redeems φ' (run cfg s1 evs) epoch' id host' id 0,
      )

  -- Once a token is spent by `exec`, the spent set that the issuer's redemption uses does not accept
  -- its id either, whatever happens in between.
  pub no_double_redeem :
      (φ φ' : R.Fault) (s : Store) (epoch epoch' : ℕ) (id : SpendId) (host : Array32)
      (evs : List Event)
      → (redeem φ s epoch id host).0 ≡ ok newly_spent
      → (Spent.insert φ' epoch' (run cfg (redeem φ s epoch id host).1 evs) id).0 ≢ inserted
  no_double_redeem φ φ' s epoch epoch' id host evs h h' =
      let s1 = (redeem φ s epoch id host).1 in
      ground (
        arith,
        redeem-Redeems φ s epoch id host id 0,
        (run-IsKept s1 evs).spends id,
        Spent.insert-Spends φ' epoch' (run cfg s1 evs) id id,
      )

  -- A spend earns its host one credit at most: after a receipt for it was credited, no receipt that
  -- names the same spend is, whatever else it says and whatever happened in between.
  pub no_second_credit :
      (φ φ' : R.Fault) (s : Store) (submit submit' : ReceiptSubmit) (evs : List Event)
      → submit.body.spend_id ≡ submit'.body.spend_id
      → (ingest φ s submit cfg).0 ≡ ok credited
      → (ingest φ' (run cfg (ingest φ s submit cfg).1 evs) submit' cfg).0 ≢ ok credited
  no_second_credit φ φ' s submit submit' evs same h h' =
      let s1 = (ingest φ s submit cfg).1 in
      ground (
        arith,
        ingest-Ingests φ s submit cfg submit.body.spend_id 0,
        (run-IsKept s1 evs).receipts submit.body.spend_id,
        ingest-Ingests φ' (run cfg s1 evs) submit' cfg submit.body.spend_id 0,
      )

  -- An account gets one trial grant, ever, on whatever day it asks again.
  pub no_second_trial :
      (φ φ' : R.Fault) (s : Store) (req req' : TrialRegisterRequest) (day day' : ℕ)
      (evs : List Event)
      → req.body.account ≡ req'.body.account
      → (grant_trial φ s req cfg day).0 ≡ ok granted
      → (grant_trial φ' (run cfg (grant_trial φ s req cfg day).1 evs) req' cfg day').0 ≢ ok granted
  no_second_trial φ φ' s req req' day day' evs same h h' =
      let s1 = (grant_trial φ s req cfg day).1 in
      ground (
        arith,
        grant_trial-Grants φ s req cfg day req.body.account 0 0 0,
        (run-IsKept s1 evs).trials req.body.account,
        grant_trial-Grants φ' (run cfg s1 evs) req' cfg day' req.body.account 0 0 0,
      )
