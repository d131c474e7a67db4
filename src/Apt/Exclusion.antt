-- ===== src/Apt/Exclusion.antt =====
-- proj2/aptsim.c: who holds the mutex, and who holds the apartment.
use cs.Prelude.{ℕ, ◌≡◌, ◌⊎◌, inl, inr, arith, Bool, true, false, if◌then◌else◌, ◌==◌, some}
use cs.Semaphore.{Semaphores}
use cs.Semaphore.Exclusive.{Exclusive, Moves, Moves-Exclusive}
use cs.Apt.{
  Place, Shared, Runs, World, Step, Reach, begin, run_agent, run_arrival, run_visit, as_agent,
  arriving, visiting, moves,
}

-- The places between a `down (mutex)` and the next `up (mutex)`.
abbrev pub in_section : Place → Bool
in_section (Place.agent_checks id) = true
in_section Place.agent_wakes = true
in_section Place.agent_enters = true
in_section Place.agent_frees = true
in_section Place.agent_resets = true
in_section Place.agent_leaves = true
in_section Place.tenant_checks = true
in_section Place.tenant_joins = true
in_section Place.tenant_wakes = true
in_section Place.tenant_enters = true
in_section Place.tenant_tells = true
in_section Place.tenant_releases = true
in_section Place.tenant_resets = true
in_section Place.tenant_unlocks = true
in_section Place.tenant_counts = true
in_section Place.tenant_decides = true
in_section Place.tenant_closes = true
in_section _ = false

-- The places of an agent who has the apartment, from `down (agent_apt_lock)` to its `up`.
abbrev pub has_apt : Place → Bool
has_apt Place.agent_locks = true
has_apt Place.agent_wakes = true
has_apt Place.agent_enters = true
has_apt Place.agent_signals = true
has_apt Place.agent_waits = true
has_apt Place.agent_opens = true
has_apt Place.agent_shows = true
has_apt Place.agent_returns = true
has_apt Place.agent_frees = true
has_apt _ = false

module _ (sys : Semaphores) where
  open sys use {new, value, down, up, new_value, down_value, up_value}

  agent-mutex :
      (s : Shared sys) (p : Place) {s' : Shared sys} {p' : Place}
      → run_agent sys s p ≡ some (s', p')
      → Moves (value s.mutex) (in_section p) (value s'.mutex) (in_section p')
        × Moves (value s.agent_apt_lock) (has_apt p) (value s'.agent_apt_lock) (has_apt p')
  agent-mutex s p {s'} e = ground (
    arith,
    e,
    down_value s.mutex s'.mutex,
    up_value s.mutex,
    down_value s.agent_apt_lock s'.agent_apt_lock,
    up_value s.agent_apt_lock,
  )

  arrival-mutex :
      (s : Shared sys) (p : Place) {s' : Shared sys} {p' : Place}
      → run_arrival sys s p ≡ some (s', p')
      → Moves (value s.mutex) (in_section p) (value s'.mutex) (in_section p')
        × Moves (value s.agent_apt_lock) (has_apt p) (value s'.agent_apt_lock) (has_apt p')
  arrival-mutex s p {s'} e = ground (arith, e, down_value s.mutex s'.mutex, up_value s.mutex)

  visit-mutex :
      (s : Shared sys) (p : Place) {s' : Shared sys} {p' : Place}
      → run_visit sys s p ≡ some (s', p')
      → Moves (value s.mutex) (in_section p) (value s'.mutex) (in_section p')
        × Moves (value s.agent_apt_lock) (has_apt p) (value s'.agent_apt_lock) (has_apt p')
  visit-mutex s p {s'} e = ground (arith, e, down_value s.mutex s'.mutex, up_value s.mutex)

  Runs-Moves :
      {s : Shared sys} {p : Place} {s' : Shared sys} {p' : Place}
      → Runs sys s p s' p'
      → Moves (value s.mutex) (in_section p) (value s'.mutex) (in_section p')
        × Moves (value s.agent_apt_lock) (has_apt p) (value s'.agent_apt_lock) (has_apt p')
  Runs-Moves {s} {p} (as_agent e) = agent-mutex s p e
  Runs-Moves {s} {p} (arriving e) = arrival-mutex s p e
  Runs-Moves {s} {p} (visiting e) = visit-mutex s p e

  -- Both locks are held by one process at most.
  pub record IsExclusive (w : World sys) : Type 0 where
    pub section : Exclusive (value w.shared.mutex) (λ k. in_section (w.place k))
    pub apt : Exclusive (value w.shared.agent_apt_lock) (λ k. has_apt (w.place k))

  pub Step-IsExclusive : {w v : World sys} → Step sys w v → IsExclusive w → IsExclusive v
  Step-IsExclusive {w} (moves {s} {p} i r) x =
      let (m, a) = Runs-Moves r in
      record {
        section =
            Moves-Exclusive i (value w.shared.mutex) (value s.mutex) (in_section p)
              (λ k. in_section (w.place k)) (λ k. in_section (if k == i then p else w.place k))
              (λ k. ground arith) m x.section;
        apt =
            Moves-Exclusive i (value w.shared.agent_apt_lock) (value s.agent_apt_lock) (has_apt p)
              (λ k. has_apt (w.place k)) (λ k. has_apt (if k == i then p else w.place k))
              (λ k. ground arith) a x.apt;
      }

  pub Reach-IsExclusive : {w v : World sys} → Reach sys w v → IsExclusive w → IsExclusive v
  Reach-IsExclusive Reach.here x = x
  Reach-IsExclusive (Reach.next path step) x = Step-IsExclusive step (Reach-IsExclusive path x)

  -- Processes that have not moved: agents and tenants at their first statement.
  abbrev pub IsNew : Place → Type 0
  IsNew p = ((id : ℕ) × (p ≡ Place.agent_arrives id)) ⊎ (p ≡ Place.tenant_arrives)

  pub begin-IsExclusive :
      (place : ℕ → Place) → ((k : ℕ) → IsNew (place k)) → IsExclusive (begin sys place)
  begin-IsExclusive place fresh = record {
    section = record {
      small = omega (arith, new_value 1);
      free = λ k e. ground (arith, fresh k);
      alone = λ j k p q. ground (arith, fresh j, p);
    };
    apt = record {
      small = omega (arith, new_value 1);
      free = λ k e. ground (arith, fresh k);
      alone = λ j k p q. ground (arith, fresh j, p);
    };
  }

  -- However agents and tenants run from their first statements, at most one process at a time is
  -- between a `down` of the mutex and its `up`, and at most one agent has the apartment.
  pub one_holder :
      (place : ℕ → Place) {w : World sys} (i j : ℕ)
      → ((k : ℕ) → IsNew (place k))
      → Reach sys (begin sys place) w
      → ((in_section (w.place i) ≡ true) × (in_section (w.place j) ≡ true))
        ⊎ ((has_apt (w.place i) ≡ true) × (has_apt (w.place j) ≡ true))
      → i ≡ j
  one_holder place i j fresh path both =
      let x = Reach-IsExclusive path (begin-IsExclusive place fresh) in
      elim both [ inl (a, b) ↦ x.section.alone i j a b | inr (a, b) ↦ x.apt.alone i j a b ]
