-- ===== src/Broker/Registry/Eviction.antt =====
-- crates/lluma-broker/src/registry.rs: `evict_stale` demotes exactly the hosts that are out of date.
use lluma.Common.{
  ℕ, suc, ◌≡◌, ◌≤◌, ◌<◌, Option, none, some, List, [], ◌∷◌, Result, ok, err, if◌then◌else◌, arith,
  refl, subst, >>=-eq-ok, ok-injective,
}
use lluma.Core.Wire.{Array32}
use lluma.Broker.Config.{BrokerError, BrokerConfig}
use lluma.Broker.Db.{Redb, find_row, IsAscending}
use lluma.Broker.Store.{
  Store, HostRow, put_row, all_rows, with_write_cases, put_row-rows, all_rows-rows,
}
use lluma.Broker.Registry.{is_stale, demote, stale_rows, put_all, evict_body, evict_stale}

-- A host's row after an eviction pass.
abbrev pub aged : BrokerConfig → ℕ → HostRow → HostRow
aged cfg now row = if is_stale cfg now row then demote row else row

abbrev pub aged_row : BrokerConfig → ℕ → Option HostRow → Option HostRow
aged_row cfg now none = none
aged_row cfg now (some row) = some (aged cfg now row)

find_row-below :
    (lo j : ℕ) (es : List (ℕ × HostRow)) → IsAscending lo es → j < lo → find_row j es ≡ none
find_row-below lo j [] h le = refl
find_row-below lo j ((k, row) ∷ es) h le = ground (arith, find_row-below (suc k) j es h.1)

-- The second list where it has the key, else the first row.
abbrev or_row : Option HostRow → Option HostRow → Option HostRow
or_row none o = o
or_row (some row) o = some row

IsAscending-weaken :
    (hi lo : ℕ) (es : List (ℕ × HostRow)) → IsAscending hi es → lo ≤ hi → IsAscending lo es
IsAscending-weaken hi lo [] h le = tt
IsAscending-weaken hi lo ((k, row) ∷ es) h le = (omega arith, h.1)

stale_rows-IsAscending :
    (cfg : BrokerConfig) (now lo : ℕ) (es : List (ℕ × HostRow))
    → IsAscending lo es
    → IsAscending lo (stale_rows cfg now es)
unfolding stale_rows
stale_rows-IsAscending cfg now lo [] h = tt
stale_rows-IsAscending cfg now lo ((k, row) ∷ es) h = ground (
  arith,
  stale_rows-IsAscending cfg now (suc k) es h.1,
  IsAscending-weaken (suc k) lo (stale_rows cfg now es),
)

-- A pass over the rows in order finds each stale row, demoted.
find_row-stale_rows :
    (cfg : BrokerConfig) (now lo j : ℕ) (es : List (ℕ × HostRow))
    → IsAscending lo es
    → or_row (find_row j (stale_rows cfg now es)) (find_row j es) ≡ aged_row cfg now (find_row j es)
unfolding stale_rows
find_row-stale_rows cfg now lo j [] h = refl
find_row-stale_rows cfg now lo j ((k, row) ∷ es) h = ground (
  arith,
  find_row-stale_rows cfg now (suc k) j es h.1,
  find_row-below (suc k) j (stale_rows cfg now es) (stale_rows-IsAscending cfg now (suc k) es h.1),
)

module _ ⦃R : Redb⦄ where
  put_all-rows :
      (φ : R.Fault) (t t' : R.Table HostRow) (lo j : ℕ) (es : List (ℕ × HostRow))
      → IsAscending lo es
      → put_all φ t es ≡ ok t'
      → R.rows HostRow t' j ≡ or_row (find_row j es) (R.rows HostRow t j)
  unfolding put_all
  put_all-rows φ t t' lo j [] h e = ground arith
  put_all-rows φ t t' lo j ((k, row) ∷ es) h e =
      let (u, put, rest) = >>=-eq-ok (put_row φ t k row) _ e in
      ground (
        arith,
        put_row-rows φ t u k row put j,
        put_all-rows φ u t' (suc k) j es h.1 rest,
        find_row-below (suc k) j es h.1,
      )

  -- What an eviction pass has done, seen at an account `j`.
  abbrev pub Evicts : BrokerConfig → ℕ → Array32 → Store → Result BrokerError ℕ × Store → Type 0
  Evicts cfg now j s (ok n, s') =
      (R.rows HostRow s'.hosts j ≡ aged_row cfg now (R.rows HostRow s.hosts j))
      × (s' ≡ record s { hosts = s'.hosts })
  Evicts cfg now j s (err e, s') = s' ≡ s

  evict_body-Evicts :
      (φ : R.Fault) (s : Store) (cfg : BrokerConfig) (now : ℕ) (j : Array32) (n : ℕ) (s' : Store)
      → evict_body φ cfg now s ≡ ok (n, s')
      → Evicts cfg now j s (ok n, s')
  unfolding evict_body
  evict_body-Evicts φ s cfg now j n s' h =
      let (es, scan, rest) = >>=-eq-ok (all_rows φ s.hosts) _ h in
      let (t, puts, same) = >>=-eq-ok (put_all φ s.hosts (stale_rows cfg now es)) _ rest in
      let (rising, found) = all_rows-rows φ s.hosts es scan in
      subst (λ p. Evicts cfg now j s (ok p.0, p.1)) (ok-injective same)
        (
          ground (
            arith,
            put_all-rows φ s.hosts t 0 j (stale_rows cfg now es)
                (stale_rows-IsAscending cfg now 0 es rising) puts,
            find_row-stale_rows cfg now 0 j es rising,
            found j,
          ),
          refl,
        )

  -- A pass that ends well turns every host that has been silent for more than three intervals and is
  -- active, or on the way to it, back to pending with no progress, leaves every other host as it
  -- was, and touches no other table; one that fails changes nothing.
  pub evict_stale-Evicts :
      (φ : R.Fault) (s : Store) (now : ℕ) (cfg : BrokerConfig) (j : Array32)
      → Evicts cfg now j s (evict_stale φ s now cfg)
  unfolding evict_stale
  evict_stale-Evicts φ s now cfg j =
      with_write_cases (Evicts cfg now j s) φ (evict_body φ cfg now) s (λ e. refl)
        λ n s' h. evict_body-Evicts φ s cfg now j n s' h
