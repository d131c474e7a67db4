-- ===== src/Xv6/Proc/Schedule.antt =====
-- lab3/xv6-public/proc.c: which process the priority scheduler of lab 3 runs.
use cs.Prelude.{
  ℕ, zero, suc, ◌+◌, ◌≤◌, ◌<◌, ◌≡◌, ◌⊎◌, inl, inr, refl, arith, true, false, ◌&&◌, List, [], ◌∷◌,
  Bool-cases, if◌then◌else◌, ltb, ◌==◌,
}
use cs.Xv6.Proc.{
  Ptable, runnable, running, put_proc, same_state, nproc, least_from, run_from, scheduler,
}

-- A slot whose process may be run, and its priority value.
abbrev pub IsRunnable : Ptable → ℕ → Type 0
IsRunnable t i = same_state (t.proc i).state runnable ≡ true

-- The first loop finds a lower bound, which is the start value or the value of a runnable process.
least_from_lem :
    (n i : ℕ) (t : Ptable) (best : ℕ)
    → (least_from n i t best ≤ best)
      × ((j : ℕ) → i ≤ j → j < i + n → IsRunnable t j → least_from n i t best ≤ (t.proc j).priority)
      × ((least_from n i t best ≡ best)
          ⊎ ((j : ℕ) × (i ≤ j)
              × (j < i + n)
              × IsRunnable t j
              × ((t.proc j).priority ≡ least_from n i t best)))
unfolding least_from
least_from_lem zero i t best = (omega arith, λ j lo hi r. absurd (omega arith), inl refl)
least_from_lem (suc n) i t best =
    let p = t.proc i in
    let next = if same_state p.state runnable && ltb p.priority best then p.priority else best in
    let (below, all, source) = least_from_lem n (i + 1) t next in
    (
      ground (arith, below),
      λ j lo hi r. elim (Bool-cases (j == i)) [
        | inl here ↦
            let e : j ≡ i = ground arith in
            let r' : IsRunnable t i = rw e at r in rw e (ground (arith, below, r'))
        | inr later ↦ all j (ground arith) (omega arith) r
      ],
      elim source [
        | inr (j, lo, hi, r, e) ↦ inr (j, omega arith, omega arith, r, e)
        | inl e ↦ elim (Bool-cases (same_state p.state runnable && ltb p.priority best)) [
          | inl better ↦
              inr (i, omega arith, omega arith, ground (arith, better), ground (arith, better, e))
          | inr worse ↦ inl (ground (arith, worse, e))
        ]
      ],
    )

-- The second loop runs first the first runnable slot of that value.
run_from_lem :
    (swtch : ℕ → Ptable → Ptable) (n i best : ℕ) (t : Ptable) (j : ℕ)
    → i ≤ j
    → j < i + n
    → IsRunnable t j
    → (t.proc j).priority ≡ best
    → (k : ℕ) × (rest : List ℕ) × ((run_from swtch n i best t).0 ≡ k ∷ rest)
      × IsRunnable t k
      × ((t.proc k).priority ≡ best)
unfolding run_from
run_from_lem swtch zero i best t j lo hi r e = absurd (omega arith)
run_from_lem swtch (suc n) i best t j lo hi r e =
    elim (Bool-cases (same_state (t.proc i).state runnable && ((t.proc i).priority == best))) [
      | inl chosen ↦ (
        i,
        (run_from swtch n (i + 1) best
            (swtch i (put_proc t i (record (t.proc i) { state = running })))).0,
        rw chosen refl,
        ground (arith, chosen),
        ground (arith, chosen),
      )
      | inr passed ↦
          rw passed (run_from_lem swtch n (i + 1) best t j (later passed) (omega arith) r e)
    ]
  where
    later :
        (same_state (t.proc i).state runnable && ((t.proc i).priority == best)) ≡ false → i + 1 ≤ j
    later passed = elim (Bool-cases (i == j)) [
      | inr other ↦ ground (arith, other)
      | inl here ↦
          let e' : i ≡ j = ground arith in
          let (r', p') : IsRunnable t i × ((t.proc i).priority ≡ best) = (rw e' r, rw e' e) in
          absurd (ground (arith, passed, r', p'))
    ]

-- With a runnable process of priority value at most 200 in the table, the first process that a
-- round of the scheduler runs is runnable and has the least priority value of all runnable
-- processes, whatever processes do while they run.
pub scheduler_first :
    (swtch : ℕ → Ptable → Ptable) (t : Ptable) (i : ℕ)
    → i < nproc
    → IsRunnable t i
    → (t.proc i).priority ≤ 200
    → (k : ℕ) × (rest : List ℕ) × ((scheduler swtch t).0 ≡ k ∷ rest)
      × IsRunnable t k
      × ((j : ℕ) → j < nproc → IsRunnable t j → (t.proc k).priority ≤ (t.proc j).priority)
unfolding scheduler
scheduler_first swtch t i hi r small =
    let (below, all, source) = least_from_lem nproc 0 t 201 in
    elim source [
      | inl none_found ↦ absurd (omega (arith, all i (omega arith) (omega arith) r, none_found))
      | inr (j, lo, lt, rj, e) ↦
          let (k, rest, runs, rk, ek) =
            run_from_lem swtch nproc 0 (least_from nproc 0 t 201) t j lo lt rj e in
          (k, rest, runs, rk, λ m hm rm. omega (arith, ek, all m (omega arith) (omega arith) rm))
    ]

run_from_none :
    (swtch : ℕ → Ptable → Ptable) (n i best : ℕ) (t : Ptable)
    → ((j : ℕ) → i ≤ j → j < i + n → same_state (t.proc j).state runnable ≡ false)
    → run_from swtch n i best t ≡ ([], t)
unfolding run_from
run_from_none swtch zero i best t idle = refl
run_from_none swtch (suc n) i best t idle = ground (
  arith,
  idle i (omega arith) (omega arith),
  run_from_none swtch n (i + 1) best t (λ j lo hi. idle j (omega arith) (omega arith)),
)

-- With no runnable process a round of the scheduler runs none and leaves the table.
pub scheduler_idle :
    (swtch : ℕ → Ptable → Ptable) (t : Ptable)
    → ((j : ℕ) → j < nproc → same_state (t.proc j).state runnable ≡ false)
    → scheduler swtch t ≡ ([], t)
unfolding scheduler
scheduler_idle swtch t idle = run_from_none swtch nproc 0 _ t (λ j lo hi. idle j (omega arith))
