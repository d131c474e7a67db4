-- ===== src/Traffic/Critical.antt =====
-- proj1_test/trafficsim-mutex.c: who is in the critical section.
use cs.Prelude.{ℕ, zero, suc, ◌≡◌, refl, arith, Bool, true, false, if◌then◌else◌, ◌==◌, some}
use cs.Semaphore.{Semaphores}
use cs.Semaphore.Exclusive.{Exclusive, Moves, Moves-Exclusive}
use cs.Traffic.{Worker, outside, critical, work}

abbrev pub is_critical : Worker → Bool
is_critical (outside n) = false
is_critical (critical n) = true

module _ (sys : Semaphores) where
  open sys use {Sem, new, value, down, up, new_value, down_value, up_value}

  -- The semaphore and the processes.
  pub record Traffic : Type 0 where
    pub sem : Sem
    pub worker : ℕ → Worker

  pub data Step (t : Traffic) : Traffic → Type 0 where
    moves :
        {s : Sem} {w : Worker} (i : ℕ)
        → work sys t.sem (t.worker i) ≡ some (s, w)
        → Step t (record { sem = s; worker = λ k. if k == i then w else t.worker k })

  pub data Reach (t : Traffic) : Traffic → Type 0 where
    here : Reach t t
    next : {u v : Traffic} → Reach t u → Step u v → Reach t v

  work-Moves :
      (s : Sem) (w : Worker) {s' : Sem} {w' : Worker}
      → work sys s w ≡ some (s', w')
      → Moves (value s) (is_critical w) (value s') (is_critical w')
  unfolding work
  work-Moves s (outside zero) e = ground (arith, e)
  work-Moves s (outside (suc n)) {s'} e = ground (arith, e, down_value s s')
  work-Moves s (critical n) e = ground (arith, e, up_value s)

  abbrev inside : Traffic → ℕ → Bool
  inside t i = is_critical (t.worker i)

  Step-Exclusive :
      {t u : Traffic}
      → Step t u
      → Exclusive (value t.sem) (inside t)
      → Exclusive (value u.sem) (inside u)
  Step-Exclusive {t} (moves {s} {w} i e) x =
      Moves-Exclusive i (value t.sem) (value s) (is_critical w) (inside t)
        (λ k. is_critical (if k == i then w else t.worker k)) (λ k. ground arith)
        (work-Moves t.sem (t.worker i) e) x

  Reach-Exclusive :
      {t u : Traffic}
      → Reach t u
      → Exclusive (value t.sem) (inside t)
      → Exclusive (value u.sem) (inside u)
  Reach-Exclusive here x = x
  Reach-Exclusive (next path step) x = Step-Exclusive step (Reach-Exclusive path x)

  -- However many processes of the mutex program run, with any number of iterations each, at most
  -- one is in the critical section at a time.
  pub critical_alone :
      (rounds : ℕ → ℕ) {t : Traffic} (i j : ℕ)
      → Reach (record { sem = new 1; worker = λ k. outside (rounds k) }) t
      → is_critical (t.worker i) ≡ true
      → is_critical (t.worker j) ≡ true
      → i ≡ j
  critical_alone rounds i j path p q = (Reach-Exclusive path begins).alone i j p q
    where
      begins : Exclusive (value (new 1)) (λ k. false)
      begins = record {
        small = omega (arith, new_value 1);
        free = λ k e. refl;
        alone = λ k l a b. ground (arith, a);
      }
