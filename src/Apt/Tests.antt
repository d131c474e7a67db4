-- ===== src/Apt/Tests.antt =====
-- proj2/aptsim.c: runs of agents and tenants, with counts for semaphores, and an `argv`.
use cs.Prelude.{ℕ, zero, suc, ◌+◌, ◌≡◌, inl, inr, refl, arith, List, [], ◌∷◌, if◌then◌else◌, ◌==◌}
use cs.Semaphore.{counting}
use cs.Apt
use cs.Apt.{
  Place, World, Shared, begin, as_agent, arriving, moves, init_shared_variables, run_agent,
}
use cs.Apt.Exclusion.{one_holder, IsNew}
use cs.Apt.Deadlock.{agents_deadlock, IsStuck}
use cs.Apt.Overbook.{tenant_overbooks}
use cs.Fs.Bytes.{same_str}
use cs.Apt.Args.{load_arguments}
use cs.Apt.Args.Order.{load_arguments_swap, args_of, argv_of}

-- Agent 0 is process 0, agent 1 is process 1, and the others are tenants.
abbrev places : ℕ → Place
places zero = Place.agent_arrives 0
places (suc zero) = Place.agent_arrives 1
places _ = Place.tenant_arrives

places-IsNew : (k : ℕ) → IsNew counting (places k)
places-IsNew zero = inl (0, refl)
places-IsNew (suc zero) = inl (1, refl)
places-IsNew (suc (suc k)) = inr refl

-- The world after process `i` has taken its step as an agent.
abbrev then_at : World counting → ℕ → Shared counting → Place → World counting
then_at w i s p = record { shared = s; place = λ k. if k == i then p else w.place k }

abbrev shared : ℕ → ℕ → Shared counting
shared m l = record (init_shared_variables counting) { mutex = m; agent_apt_lock = l }

abbrev w1 : World counting
w1 = then_at (begin counting places) 1 (shared 0 1) (Place.agent_checks 1)

abbrev w2 : World counting
w2 = then_at w1 1 (shared 1 1) Place.agent_queues

abbrev w3 : World counting
w3 = then_at w2 1 (shared 1 0) Place.agent_locks

abbrev w4 : World counting
w4 = then_at w3 0 (shared 0 0) (Place.agent_checks 0)

w4-Reach : Apt.Reach counting (begin counting places) w4
w4-Reach =
    Apt.Reach.next
      (Apt.Reach.next
        (Apt.Reach.next (Apt.Reach.next Apt.Reach.here (moves 1 (as_agent refl)))
          (moves 1 (as_agent refl)))
        (moves 1 (as_agent refl)))
      (moves 0 (as_agent refl))

abbrev holder : ℕ
holder = 1

one_holder_example : holder ≡ holder
one_holder_example =
    one_holder counting places holder holder places-IsNew w4-Reach (inr (refl, refl))

agents_deadlock_example : IsStuck counting 0 1 w4
agents_deadlock_example =
    agents_deadlock counting places 0 1 places-IsNew w4-Reach refl refl Apt.Reach.here

-- An agent has ten tenants, and a permit is left over.
abbrev crowded : World counting
crowded = record {
  shared = record (init_shared_variables counting) {
    waiting_for_agent = 1;
    current_agent_tenants = 10;
  };
  place = λ k. Place.tenant_arrives;
}

tenant_overbooks_example :
    (v : World counting) × Apt.Reach counting crowded v
    × (v.shared.current_agent_tenants ≡ crowded.shared.current_agent_tenants + 1)
tenant_overbooks_example = tenant_overbooks counting crowded 4 refl refl (omega arith) (omega arith)

-- `-m 3` and `-k 2` among the six options.
abbrev m_3 : List ℕ × List ℕ
m_3 = (b'-' ∷ b'm' ∷ [], b'3' ∷ [])

abbrev k_2 : List ℕ × List ℕ
k_2 = (b'-' ∷ b'k' ∷ [], b'2' ∷ [])

abbrev four_more : List (List ℕ × List ℕ)
four_more =
    (b'-' ∷ b'p' ∷ b't' ∷ [], b'9' ∷ [])
    ∷ (b'-' ∷ b'd' ∷ b't' ∷ [], b'1' ∷ [])
    ∷ (b'-' ∷ b'p' ∷ b'a' ∷ [], b'8' ∷ [])
    ∷ (b'-' ∷ b'd' ∷ b'a' ∷ [], b'7' ∷ [])
    ∷ []

options_swapped :
    args_of (load_arguments (argv_of (m_3 ∷ k_2 ∷ four_more)))
    ≡ args_of (load_arguments (argv_of (k_2 ∷ m_3 ∷ four_more)))
unfolding same_str
options_swapped = load_arguments_swap [] m_3.0 m_3.1 k_2.0 k_2.1 four_more (ground arith) refl
