-- ===== src/Xv6/Proc/Pids.antt =====
-- lab3/xv6-public/proc.c: the pids of the processes in use.
use cs.Prelude.{
  ℕ, ◌+◌, ◌%◌, ◌^◌, ◌≤◌, ◌<◌, ◌≡◌, ◌∙◌, inl, inr, refl, sym, ap, arith, Bool, true, false, not,
  ◌&&◌, Option, none, some, Bool-cases, Option-cases, if◌then◌else◌, ◌==◌,
}
use cs.Prelude.Search.{search_from}
use cs.Xv6.Proc.Sleep.{Kept}
use cs.Xv6.Proc.{
  Ptable, Proc, unused, embryo, sleeping, runnable, zombie, same_state, nproc, put_proc, allocproc,
  fork_rest, kill, wait_round, is_child, cleared, at_proc,
}

abbrev pub in_use : Proc → Bool
in_use p = not (same_state p.state unused)

pub record HasPids (t : Ptable) : Type 0 where
  pub below : (i : ℕ) → i < nproc → in_use (t.proc i) ≡ true → (t.proc i).pid < t.nextpid
  pub unique :
      (i j : ℕ)
      → i < nproc
      → j < nproc
      → in_use (t.proc i) ≡ true
      → in_use (t.proc j) ≡ true
      → (t.proc i).pid ≡ (t.proc j).pid
      → i ≡ j

-- A slot that is free takes the next pid.
put_new :
    (t : Ptable) (i : ℕ) (p : Proc)
    → HasPids t
    → p.pid ≡ t.nextpid
    → t.nextpid + 1 < 2 ^ 31
    → HasPids (put_proc (record t { nextpid = (t.nextpid + 1) % 2 ^ 32 }) i p)
      × ((t.nextpid + 1) % 2 ^ 32 ≤ t.nextpid + 1)
put_new t i p v e small =
    let next : (t.nextpid + 1) % 2 ^ 32 ≡ t.nextpid + 1 = omega arith in
    (
      record {
        below = λ k hk u. ground (arith, e, next, v.below k hk);
        unique =
            λ j k hj hk u w same. ground (arith, e, v.below j hj, v.below k hk, v.unique j k hj hk);
      },
      omega arith,
    )

-- Every slot that is in use afterwards was in use before, with its pid.
pub record Tame (t t' : Ptable) : Type 0 where
  pub pids :
      (k : ℕ)
      → k < nproc
      → in_use (t'.proc k) ≡ true
      → (in_use (t.proc k) ≡ true) × ((t'.proc k).pid ≡ (t.proc k).pid)
  pub next : t'.nextpid ≡ t.nextpid

pub Tame-HasPids : {t t' : Ptable} → Tame t t' → HasPids t → HasPids t'
Tame-HasPids {t} {t'} h v = record {
  below =
      λ k hk u. let (was, same) = h.pids k hk u in omega (arith, same, h.next, v.below k hk was);
  unique = λ j k hj hk u w e.
      let (was, same) = h.pids j hj u in
      let (was', same') = h.pids k hk w in v.unique j k hj hk was was' (sym same ∙ e ∙ same');
}

pub Tame-refl : (t : Ptable) → Tame t t
Tame-refl t = record { pids = λ k hk u. (u, refl); next = refl }

pub put_old :
    (t : Ptable) (i : ℕ) (p : Proc)
    → (in_use p ≡ true → (in_use (t.proc i) ≡ true) × (p.pid ≡ (t.proc i).pid))
    → Tame t (put_proc t i p)
put_old t i p keep = record { pids = slot; next = refl }
  where
    slot :
        (k : ℕ)
        → k < nproc
        → in_use ((put_proc t i p).proc k) ≡ true
        → (in_use (t.proc k) ≡ true) × (((put_proc t i p).proc k).pid ≡ (t.proc k).pid)
    slot k hk u = elim (Bool-cases (k == i)) [
      | inr other ↦ (ground (arith, u), ground arith)
      | inl here ↦
          let e : k ≡ i = ground arith in
          let (was, same) = keep (ground (arith, u)) in
          (rw e was, ground (arith, same, ap t.proc e))
    ]

-- Slots that exit and wakeup change keep their pid and stay in use or not.
pub Kept-Tame :
    {t t' : Ptable} → ((k : ℕ) → Kept (t.proc k) (t'.proc k)) → t'.nextpid ≡ t.nextpid → Tame t t'
Kept-Tame {t} {t'} h e = record { pids = slot; next = e }
  where
    slot :
        (k : ℕ)
        → k < nproc
        → in_use (t'.proc k) ≡ true
        → (in_use (t.proc k) ≡ true) × ((t'.proc k).pid ≡ (t.proc k).pid)
    slot k hk u = (ground (arith, (h k).state, u), (h k).pid)

-- A slot gets a pid, at most, and the next one to be given moves on by one.
pub allocproc-HasPids :
    (kstack : ℕ) (t : Ptable)
    → HasPids t
    → t.nextpid + 1 < 2 ^ 31
    → HasPids (allocproc kstack t).1 × ((allocproc kstack t).1.nextpid ≤ t.nextpid + 1)
unfolding allocproc
allocproc-HasPids kstack t v small =
    go (search_from nproc 0 (λ i. same_state (t.proc i).state unused)) refl
  where
    go :
        (o : Option ℕ)
        → search_from nproc 0 (λ i. same_state (t.proc i).state unused) ≡ o
        → HasPids (allocproc kstack t).1 × ((allocproc kstack t).1.nextpid ≤ t.nextpid + 1)
    go none e = rw (e, allocproc) (v, omega arith)
    go (some i) e = elim (Bool-cases (kstack == 0)) [
      | inl failed ↦
          rw (e, allocproc, failed)
            (put_new t i
              (record (t.proc i) {
                pid = t.nextpid;
                priority = 50;
                kstack = kstack;
                state = unused;
              })
              v refl small)
      | inr fine ↦
          rw (e, allocproc, fine)
            (put_new t i
              (record (t.proc i) {
                pid = t.nextpid;
                priority = 50;
                kstack = kstack;
                state = embryo;
              })
              v refl small)
    ]

-- What fork does to the slot that allocproc gave it.
pub fork_rest-Tame :
    (cur i pgdir : ℕ) (t : Ptable) → (t.proc i).state ≡ embryo → Tame t (fork_rest cur i pgdir t).1
unfolding fork_rest
fork_rest-Tame cur i pgdir t e = elim (Bool-cases (pgdir == 0)) [
  | inl failed ↦ rw failed (
      put_old t i (record (t.proc i) { pgdir = 0; kstack = 0; state = unused })
        (λ u. absurd (ground (arith, u))))
  | inr fine ↦ rw fine (
      put_old t i
        (record (t.proc i) {
          pgdir = pgdir;
          sz = (t.proc cur).sz;
          parent = some cur;
          frame = (t.proc cur).frame;
          eax = 0;
          name = (t.proc cur).name;
          state = runnable;
        })
        (λ u. (ground (arith, e), refl)))
]

pub wait_round-Tame :
    (cur : ℕ) (t : Ptable) → in_use (t.proc cur) ≡ true → Tame t (wait_round cur t).1
unfolding wait_round
wait_round-Tame cur t u =
    go (search_from nproc 0 (λ i. is_child t cur i && same_state (t.proc i).state zombie)) refl
  where
    go :
        (o : Option ℕ)
        → search_from nproc 0 (λ i. is_child t cur i && same_state (t.proc i).state zombie) ≡ o
        → Tame t (wait_round cur t).1
    go (some i) e =
        rw (e, wait_round) (put_old t i (cleared (t.proc i)) (λ w. absurd (ground (arith, w))))
    go none e = elim (Option-cases (search_from nproc 0 (is_child t cur))) [
      | inl e' ↦ rw (e, wait_round, e') (Tame-refl t)
      | inr (i, e') ↦ elim (Bool-cases (t.proc cur).killed) [
        | inl dead ↦ rw (e, wait_round, e', dead) (Tame-refl t)
        | inr alive ↦
            rw (e, wait_round, e', alive)
              (put_old t cur
                (record (t.proc cur) { chan = at_proc cur; state = sleeping; killed = false })
                (λ w. (u, refl)))
      ]
    ]

pub kill-Tame : (pid : ℕ) (t : Ptable) → Tame t (kill pid t).1
unfolding kill
kill-Tame pid t = go (search_from nproc 0 (λ i. (t.proc i).pid == pid)) refl
  where
    go :
        (o : Option ℕ)
        → search_from nproc 0 (λ i. (t.proc i).pid == pid) ≡ o
        → Tame t (kill pid t).1
    go none e = rw (e, kill) (Tame-refl t)
    go (some i) e =
        rw (e, kill)
          (put_old t i
            (record (t.proc i) {
              killed = true;
              state = if same_state (t.proc i).state sleeping then runnable else (t.proc i).state;
            })
            (λ w. (ground (arith, w), refl)))
