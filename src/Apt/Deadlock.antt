-- ===== src/Apt/Deadlock.antt =====
-- proj2/aptsim.c: agent 0 takes the mutex and then waits for the apartment, and an agent who has the
-- apartment waits for the mutex.
use cs.Prelude.{ℕ, ◌≡◌, ◌≢◌, ap, arith}
use cs.Semaphore.{Semaphores}
use cs.Apt.{Place, Shared, Runs, World, Step, Reach, begin, as_agent, arriving, visiting, moves}
use cs.Apt.Exclusion.{IsNew, IsExclusive, Reach-IsExclusive, begin-IsExclusive}

module _ (sys : Semaphores) where
  open sys use {value, down_value}

  -- Agent 0 in process `i` holds the mutex and waits for the apartment; process `j` has the apartment
  -- and waits for the mutex.
  pub record IsStuck (i j : ℕ) (w : World sys) : Type 0 where
    pub waits_for_apt : w.place i ≡ Place.agent_checks 0
    pub waits_for_mutex : w.place j ≡ Place.agent_locks
    pub mutex_taken : value w.shared.mutex ≡ 0
    pub apt_taken : value w.shared.agent_apt_lock ≡ 0

  -- Neither of the two can move.
  Runs-other :
      {s : Shared sys} {p : Place} {s' : Shared sys} {p' : Place}
      → Runs sys s p s' p'
      → value s.mutex ≡ 0
      → value s.agent_apt_lock ≡ 0
      → (p ≢ Place.agent_checks 0) × (p ≢ Place.agent_locks)
  Runs-other {s} {p} {s'} (as_agent e) m a =
      ground (arith, e, down_value s.mutex s'.mutex, down_value s.agent_apt_lock s'.agent_apt_lock)
  Runs-other (arriving e) m a = ground (arith, e)
  Runs-other (visiting e) m a = ground (arith, e)

  holders-IsStuck :
      {w : World sys} (i j : ℕ)
      → IsExclusive sys w
      → w.place i ≡ Place.agent_checks 0
      → w.place j ≡ Place.agent_locks
      → IsStuck i j w
  holders-IsStuck i j x p q = record {
    waits_for_apt = p;
    waits_for_mutex = q;
    mutex_taken = ground (arith, x.section.small, x.section.free i, p);
    apt_taken = ground (arith, x.apt.small, x.apt.free j, q);
  }

  Step-stays :
      {w v : World sys} (i j : ℕ)
      → Step sys w v
      → IsStuck i j w
      → (v.place i ≡ Place.agent_checks 0) × (v.place j ≡ Place.agent_locks)
  Step-stays {w} i j (moves {s} {p} k r) h =
      let (a, b) = Runs-other r h.mutex_taken h.apt_taken in
      (
        ground (arith, h.waits_for_apt, a, ap w.place {x = i} {y = k}),
        ground (arith, h.waits_for_mutex, b, ap w.place {x = j} {y = k}),
      )

  Reach-IsStuck :
      {w v : World sys} (i j : ℕ)
      → Reach sys w v
      → IsExclusive sys w
      → IsStuck i j w
      → IsStuck i j v
  Reach-IsStuck i j Reach.here x h = h
  Reach-IsStuck i j (Reach.next path step) x h =
      let (p, q) = Step-stays i j step (Reach-IsStuck i j path x h) in
      holders-IsStuck i j (Reach-IsExclusive sys (Reach.next path step) x) p q

  -- When agent 0 has the mutex and is at its `down` of the apartment's lock, while another agent,
  -- who has the apartment, is at its `down` of the mutex, then however the run goes on, both stay
  -- where they are and both semaphores are 0.
  pub agents_deadlock :
      (place : ℕ → Place) {w v : World sys} (i j : ℕ)
      → ((k : ℕ) → IsNew sys (place k))
      → Reach sys (begin sys place) w
      → w.place i ≡ Place.agent_checks 0
      → w.place j ≡ Place.agent_locks
      → Reach sys w v
      → IsStuck i j v
  agents_deadlock place i j fresh path p q on =
      let x = Reach-IsExclusive sys path (begin-IsExclusive sys place fresh) in
      Reach-IsStuck i j on x (holders-IsStuck i j x p q)
