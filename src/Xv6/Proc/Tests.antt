-- ===== src/Xv6/Proc/Tests.antt =====
-- lab3/xv6-public/proc.c: the theorems at a concrete process table.
use cs.Prelude.{
  ℕ, ◌≤◌, ◌<◌, ◌≡◌, refl, arith, false, List, [], ◌∷◌, Option, none, some, if◌then◌else◌, ◌==◌,
}
use cs.Prelude.Search.{search_from}
use cs.Xv6.Proc.{
  Ptable, Proc, State, unused, sleeping, runnable, running, Chan, nowhere, at_proc, nproc,
  allocproc, fork, fork_rest, exit, reaped, wait_round, scheduler, run_from, least_from,
}
use cs.Xv6.Proc.Schedule.{IsRunnable, scheduler_first}
use cs.Xv6.Proc.Pids.{HasPids}
use cs.Xv6.Proc.Steps
use cs.Xv6.Proc.Steps.{pids_unique, all_given}
use cs.Xv6.Proc.Sleep.{exit-wait_round}

abbrev slot : State → ℕ → Option ℕ → Chan → ℕ → Proc
slot s pid parent c priority = record {
  sz = 4096;
  pgdir = 0;
  kstack = 0;
  state = s;
  pid = pid;
  parent = parent;
  frame = 0;
  eax = 0;
  chan = c;
  killed = false;
  name = [];
  priority = priority;
}

-- init in slot 0, a shell in slot 1 that waits for its child in slot 2, and that child's child in 3.
abbrev table : Ptable
table = record {
  proc = λ k.
      if k == 0
      then slot runnable 1 none nowhere 50
      else if k == 1
      then slot sleeping 2 (some 0) (at_proc 1) 50
      else if k == 2
      then slot running 3 (some 1) nowhere 50
      else if k == 3
      then slot runnable 4 (some 2) nowhere 20
      else slot unused 0 none nowhere 0;
  nextpid = 5;
  initproc = 0;
}

scheduler_first_example :
    (k : ℕ) × (rest : List ℕ) × ((scheduler (λ i t. t) table).0 ≡ k ∷ rest)
    × IsRunnable table k
    × ((j : ℕ) → j < nproc → IsRunnable table j → (table.proc k).priority ≤ (table.proc j).priority)
scheduler_first_example = scheduler_first (λ i t. t) table 0 (omega arith) refl (omega arith)

scheduler_run : (scheduler (λ i t. t) table).0 ≡ 3 ∷ []
unfolding scheduler run_from least_from
scheduler_run = refl

abbrev idle_table : Ptable
idle_table = record { proc = λ k. slot unused 0 none nowhere 0; nextpid = 1; initproc = 0 }

exit-wait_round_example :
    (((exit 2 table).proc 1).state ≡ runnable)
    × ((pid : ℕ) × ((wait_round 1 (exit 2 table)).0 ≡ reaped pid))
exit-wait_round_example =
    exit-wait_round 2 1 table (omega arith) (omega arith) (omega arith) (omega arith) refl refl refl

idle-HasPids : HasPids idle_table
idle-HasPids = record {
  below = λ i h u. absurd (ground (arith, u));
  unique = λ i j h h' u w e. absurd (ground (arith, u));
}

pids_unique_example : HasPids (fork 0 4096 8192 idle_table).1
unfolding allocproc fork fork_rest all_given search_from
pids_unique_example =
    pids_unique {t = idle_table}
      (Steps.next (Steps.next Steps.here (Steps.does_allocproc 4096))
        (Steps.ends_fork 0 0 8192 refl))
      idle-HasPids (omega arith)
