-- ===== src/Xv6/Proc/Steps.antt =====
-- lab3/xv6-public/proc.c: the operations on the process table as the steps of a system.
use cs.Prelude.{
  ℕ, ◌+◌, ◌^◌, ◌≤◌, ◌<◌, ◌≡◌, ◌∙◌, inl, inr, refl, ap, arith, true, Bool-cases, ltb, ◌==◌,
}
use cs.Xv6.Proc.Sleep.{Kept, Kept-trans, wakeup1-Kept, wakeup1-next, reparent_lem, reparent-next}
use cs.Xv6.Proc.{
  Ptable, sleeping, runnable, nproc, put_proc, allocproc, fork_rest, embryo, kill, wait_round, Chan,
  nowhere, running, chan_of, wakeup1, reparent, exit, yield, sleep, wake_up, sys_setpriority,
}
use cs.Xv6.Proc.Pids.{
  in_use, HasPids, Tame, Tame-refl, Tame-HasPids, put_old, Kept-Tame, allocproc-HasPids,
  fork_rest-Tame, wait_round-Tame, kill-Tame,
}

-- The operations on the table, in any order and by any processes. A fork is two steps, between which
-- others may come; the fields that each sets without the lock are set in the same step.
pub data Step (t : Ptable) : Ptable → Type 0 where
  does_allocproc : (kstack : ℕ) → Step t (allocproc kstack t).1
  ends_fork : (cur i pgdir : ℕ) → (t.proc i).state ≡ embryo → Step t (fork_rest cur i pgdir t).1
  does_exit : (cur : ℕ) → in_use (t.proc cur) ≡ true → Step t (exit cur t)
  does_wait : (cur : ℕ) → in_use (t.proc cur) ≡ true → Step t (wait_round cur t).1
  does_yield : (cur : ℕ) → in_use (t.proc cur) ≡ true → Step t (yield cur t)
  does_sleep : (cur : ℕ) (c : Chan) → in_use (t.proc cur) ≡ true → Step t (sleep cur c t)
  goes_on : (cur : ℕ) → in_use (t.proc cur) ≡ true → Step t (wake_up cur t)
  does_wakeup : (c : Chan) → Step t (wakeup1 c t)
  does_kill : (pid : ℕ) → Step t (kill pid t).1
  does_setpriority :
      (cur priority : ℕ) → in_use (t.proc cur) ≡ true → Step t (sys_setpriority cur priority t).1
  is_run :
      (i : ℕ)
      → (t.proc i).state ≡ runnable
      → Step t (put_proc t i (record (t.proc i) { state = running }))

pub data Reach (t : Ptable) : Ptable → Type 0 where
  here : Reach t t
  next : {u v : Ptable} → Reach t u → Step u v → Reach t v

-- How many pids a step gives, at most.
abbrev pub given : {t u : Ptable} → Step t u → ℕ
given (does_allocproc kstack) = 1
given (ends_fork cur i pgdir e) = 0
given (does_exit cur u) = 0
given (does_wait cur u) = 0
given (does_yield cur u) = 0
given (does_sleep cur c u) = 0
given (goes_on cur u) = 0
given (does_wakeup c) = 0
given (does_kill pid) = 0
given (does_setpriority cur priority u) = 0
given (is_run i r) = 0

unfoldable pub all_given : {t u : Ptable} → Reach t u → ℕ
all_given here = 0
all_given (next path step) = all_given path + given step

exit-Tame : (cur : ℕ) (t : Ptable) → in_use (t.proc cur) ≡ true → Tame t (exit cur t)
unfolding exit
exit-Tame cur t u = record {
  pids = slot;
  next = reparent-next nproc 0 cur woken ∙ wakeup1-next (chan_of (t.proc cur).parent) t;
}
  where
    woken : Ptable
    woken = wakeup1 (chan_of (t.proc cur).parent) t

    kept : (k : ℕ) → Kept (t.proc k) ((reparent nproc 0 cur woken).proc k)
    kept k =
        Kept-trans (wakeup1-Kept (chan_of (t.proc cur).parent) t k)
          (reparent_lem nproc 0 cur woken k).0

    slot :
        (k : ℕ)
        → k < nproc
        → in_use ((exit cur t).proc k) ≡ true
        → (in_use (t.proc k) ≡ true) × (((exit cur t).proc k).pid ≡ (t.proc k).pid)
    slot k hk w = elim (Bool-cases (k == cur)) [
      | inr other ↦ (ground (arith, w, (kept k).state), ground (arith, (kept k).pid))
      | inl same ↦
          let e : k ≡ cur = ground arith in (rw e u, ground (arith, (kept cur).pid, ap t.proc e))
    ]

setpriority-Tame :
    (cur priority : ℕ) (t : Ptable)
    → in_use (t.proc cur) ≡ true
    → Tame t (sys_setpriority cur priority t).1
unfolding sys_setpriority yield
setpriority-Tame cur priority t u = elim (Bool-cases (ltb 200 priority)) [
  | inl large ↦ rw large (Tame-refl t)
  | inr small ↦ elim (Bool-cases (ltb (t.proc cur).priority priority)) [
    | inl raised ↦
        rw (small, raised)
          (record { pids = λ k hk w. (ground (arith, w, u, ap t.proc), ground arith); next = refl })
    | inr kept ↦
        rw (small, kept)
          (put_old t cur (record (t.proc cur) { priority = priority }) (λ w. (u, refl)))
  ]
]

keeps : {t u : Ptable} → Tame t u → HasPids t → HasPids u × (u.nextpid ≤ t.nextpid + 0)
keeps h v = (Tame-HasPids h v, omega (arith, h.next))

Step-HasPids :
    {t u : Ptable} (step : Step t u)
    → HasPids t
    → t.nextpid + given step < 2 ^ 31
    → HasPids u × (u.nextpid ≤ t.nextpid + given step)
unfolding yield sleep wake_up
Step-HasPids {t} (does_allocproc kstack) v small = allocproc-HasPids kstack t v small
Step-HasPids {t} (ends_fork cur i pgdir e) v small = keeps (fork_rest-Tame cur i pgdir t e) v
Step-HasPids {t} (does_exit cur u) v small = keeps (exit-Tame cur t u) v
Step-HasPids {t} (does_wait cur u) v small = keeps (wait_round-Tame cur t u) v
Step-HasPids {t} (does_yield cur u) v small =
    keeps (put_old t cur (record (t.proc cur) { state = runnable }) (λ w. (u, refl))) v
Step-HasPids {t} (does_sleep cur c u) v small =
    keeps (put_old t cur (record (t.proc cur) { chan = c; state = sleeping }) (λ w. (u, refl))) v
Step-HasPids {t} (goes_on cur u) v small =
    keeps (put_old t cur (record (t.proc cur) { chan = nowhere }) (λ w. (u, refl))) v
Step-HasPids {t} (does_wakeup c) v small =
    keeps (Kept-Tame (λ k. wakeup1-Kept c t k) (wakeup1-next c t)) v
Step-HasPids {t} (does_kill pid) v small = keeps (kill-Tame pid t) v
Step-HasPids {t} (does_setpriority cur priority u) v small =
    keeps (setpriority-Tame cur priority t u) v
Step-HasPids {t} (is_run i r) v small =
    keeps (put_old t i (record (t.proc i) { state = running }) (λ w. (ground (arith, r), refl))) v

Reach-HasPids :
    {t u : Ptable} (path : Reach t u)
    → HasPids t
    → t.nextpid + all_given path < 2 ^ 31
    → HasPids u × (u.nextpid ≤ t.nextpid + all_given path)
unfolding all_given
Reach-HasPids here v small = (v, omega arith)
Reach-HasPids (next path step) v small =
    let (w, le) = Reach-HasPids path v (omega (arith, small)) in
    let (x, le') = Step-HasPids step w (omega (arith, small, le)) in (x, omega (arith, le, le'))

-- From a table where the processes in use have different pids, all below the next one to be
-- given, every sequence of allocproc, the rest of fork, exit, wait, yield, sleep, wakeup, kill,
-- setpriority and scheduling leads to such a table, as long as the next pid and the number of
-- calls of allocproc together stay below 2^31, where `nextpid` would wrap.
pub pids_unique :
    {t u : Ptable} (path : Reach t u) → HasPids t → t.nextpid + all_given path < 2 ^ 31 → HasPids u
pids_unique path v small = (Reach-HasPids path v small).0
