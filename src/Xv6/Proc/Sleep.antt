-- ===== src/Xv6/Proc/Sleep.antt =====
-- lab3/xv6-public/proc.c: exit and wait.
use cs.Prelude.{
  ℕ, zero, suc, ◌+◌, ◌<◌, ◌≡◌, ◌≢◌, ◌⊎◌, ◌∙◌, inl, inr, refl, ap, arith, true, false, ◌&&◌, Option,
  none, some, Bool-cases, if◌then◌else◌, ltb, leb, ◌==◌,
}
use cs.Prelude.Search.{search_from, search_from-none}
use cs.Xv6.Proc.{
  Ptable, Proc, sleeping, runnable, zombie, same_state, Chan, at_proc, same_chan, chan_of, nproc,
  is_child, wakeup1, reparent, exit, reaped, put_proc, wait_round,
}

-- What the loops of exit may change in a slot: its parent, and its state from sleeping to runnable.
pub record Kept (p q : Proc) : Type 0 where
  pub pid : q.pid ≡ p.pid
  pub killed : q.killed ≡ p.killed
  pub state : (q.state ≡ p.state) ⊎ ((p.state ≡ sleeping) × (q.state ≡ runnable))

Kept-refl : (p : Proc) → Kept p p
Kept-refl p = record { pid = refl; killed = refl; state = inl refl }

pub Kept-trans : {p q r : Proc} → Kept p q → Kept q r → Kept p r
Kept-trans a b = record {
  pid = b.pid ∙ a.pid;
  killed = b.killed ∙ a.killed;
  state = ground (arith, a.state, b.state);
}

pub wakeup1-Kept : (c : Chan) (t : Ptable) (k : ℕ) → Kept (t.proc k) ((wakeup1 c t).proc k)
unfolding wakeup1
wakeup1-Kept c t k = record { pid = ground arith; killed = ground arith; state = ground arith }

wakeup1-parent : (c : Chan) (t : Ptable) (k : ℕ) → ((wakeup1 c t).proc k).parent ≡ (t.proc k).parent
unfolding wakeup1
wakeup1-parent c t k = ground arith

-- One round of the loop over the children.
abbrev given : ℕ → Ptable → Ptable
given i t = put_proc t i (record (t.proc i) { parent = some t.initproc })

abbrev reparent_step : ℕ → ℕ → Ptable → Ptable
reparent_step i cur t =
    if is_child t cur i
    then (if same_state (t.proc i).state zombie
        then wakeup1 (at_proc t.initproc) (given i t)
        else given i t)
    else t

given-Kept : (i : ℕ) (t : Ptable) (k : ℕ) → Kept (t.proc k) ((given i t).proc k)
given-Kept i t k = record {
  pid = ground (arith, e);
  killed = ground (arith, e);
  state = ground (arith, e);
}
  where
    e : k ≡ i → t.proc k ≡ t.proc i
    e = ap t.proc

step-Kept : (i cur : ℕ) (t : Ptable) (k : ℕ) → Kept (t.proc k) ((reparent_step i cur t).proc k)
step-Kept i cur t k = elim (Bool-cases (is_child t cur i)) [
  | inr other ↦ rw other (Kept-refl (t.proc k))
  | inl child ↦ elim (Bool-cases (same_state (t.proc i).state zombie)) [
    | inr alive ↦ rw (child, alive) (given-Kept i t k)
    | inl dead ↦
        rw (child, dead)
          (Kept-trans (given-Kept i t k) (wakeup1-Kept (at_proc t.initproc) (given i t) k))
  ]
]

step-parent :
    (i cur : ℕ) (t : Ptable) (k : ℕ)
    → ((reparent_step i cur t).proc k).parent
      ≡ (if k == i && is_child t cur i then some t.initproc else (t.proc k).parent)
step-parent i cur t k = ground (arith, wakeup1-parent (at_proc t.initproc) (given i t) k)

step-init : (i cur : ℕ) (t : Ptable) → (reparent_step i cur t).initproc ≡ t.initproc
unfolding wakeup1
step-init i cur t = ground arith

reparent-unfold :
    (n i cur : ℕ) (t : Ptable)
    → reparent (suc n) i cur t ≡ reparent n (i + 1) cur (reparent_step i cur t)
unfolding reparent
reparent-unfold n i cur t = ground arith

-- The whole loop: the children of `cur` in its range go to init, and the other slots keep their parent.
pub reparent_lem :
    (n i cur : ℕ) (t : Ptable) (k : ℕ)
    → Kept (t.proc k) ((reparent n i cur t).proc k)
      × (((reparent n i cur t).proc k).parent ≡ (
          if leb i k && (ltb k (i + n) && is_child t cur k)
          then some t.initproc
          else (t.proc k).parent))
      × ((reparent n i cur t).initproc ≡ t.initproc)
reparent_lem zero i cur t k = (
  unfold reparent in Kept-refl (t.proc k),
  unfold reparent in ground arith,
  unfold reparent in refl,
)
reparent_lem (suc n) i cur t k =
    let s = reparent_step i cur t in
    let (kept, parent, init) = reparent_lem n (i + 1) cur s k in
    rw (reparent-unfold n i cur t) (
      Kept-trans (step-Kept i cur t k) kept,
      elim (Bool-cases (k == i)) [
        | inl here ↦ let e : k ≡ i = ground arith in rw e (parent_here (rw e at parent))
        | inr other ↦ ground (arith, parent, step-parent i cur t k, step-init i cur t)
      ],
      init ∙ step-init i cur t,
    )
  where
    s' : Ptable
    s' = reparent_step i cur t

    parent_here :
        ((reparent n (i + 1) cur s').proc i).parent ≡ (
          if leb (i + 1) i && (ltb i (i + 1 + n) && is_child s' cur i)
          then some s'.initproc
          else (s'.proc i).parent)
        → ((reparent n (i + 1) cur s').proc i).parent ≡ (
            if leb i i && (ltb i (i + suc n) && is_child t cur i)
            then some t.initproc
            else (t.proc i).parent)
    parent_here p = ground (arith, p, step-parent i cur t i)

wakeup1-init : (c : Chan) (t : Ptable) → (wakeup1 c t).initproc ≡ t.initproc
unfolding wakeup1
wakeup1-init c t = refl

wakeup1-sleeper :
    (c : Chan) (t : Ptable) (k : ℕ)
    → k < nproc
    → (t.proc k).state ≡ sleeping
    → same_chan (t.proc k).chan c ≡ true
    → ((wakeup1 c t).proc k).state ≡ runnable
unfolding wakeup1
wakeup1-sleeper c t k hk s e = ground arith

-- A process other than init that exits becomes a zombie, and no slot of the table has it for a
-- parent any more: its children have init for a parent, and every other slot keeps its parent.
pub exit_family :
    (cur : ℕ) (t : Ptable) (k : ℕ)
    → k < nproc
    → t.initproc ≢ cur
    → (((exit cur t).proc cur).state ≡ zombie)
      × (is_child (exit cur t) cur k ≡ false)
      × (((exit cur t).proc k).parent
          ≡ (if is_child t cur k then some t.initproc else (t.proc k).parent))
unfolding exit
exit_family cur t k hk other =
    let woken = wakeup1 (chan_of (t.proc cur).parent) t in
    let before = wakeup1-parent (chan_of (t.proc cur).parent) t k in
    let (kept, parent, init) = reparent_lem nproc 0 cur woken k in
    let start = wakeup1-init (chan_of (t.proc cur).parent) t in
    (ground arith, ground (arith, parent, start, before), ground (arith, parent, start, before))

wait_round-reaps :
    (cur : ℕ) (t : Ptable) (i : ℕ)
    → search_from nproc 0 (λ k. is_child t cur k && same_state (t.proc k).state zombie) ≡ some i
    → (wait_round cur t).0 ≡ reaped (t.proc i).pid
unfolding wait_round
wait_round-reaps cur t i e = rw (e, wait_round) refl

-- When a process other than init exits while its parent, another slot, sleeps in wait, the parent
-- becomes runnable, and its next round of wait returns the pid of a child: the exit is not
-- missed.
pub exit-wait_round :
    (cur parent : ℕ) (t : Ptable)
    → cur < nproc
    → parent < nproc
    → parent ≢ cur
    → t.initproc ≢ cur
    → (t.proc cur).parent ≡ some parent
    → (t.proc parent).state ≡ sleeping
    → (t.proc parent).chan ≡ at_proc parent
    → (((exit cur t).proc parent).state ≡ runnable)
      × ((pid : ℕ) × ((wait_round parent (exit cur t)).0 ≡ reaped pid))
exit-wait_round cur parent t hc hp ne other child sleeps at = (awake, reaps)
  where
    woken : Ptable
    woken = wakeup1 (chan_of (t.proc cur).parent) t

    up : (woken.proc parent).state ≡ runnable
    up =
        wakeup1-sleeper (chan_of (t.proc cur).parent) t parent hp sleeps
          (rw (child, at) (ground arith))

    awake : ((exit cur t).proc parent).state ≡ runnable
    awake =
        let (kept, _, _) = reparent_lem nproc 0 cur woken parent in
        unfold exit in ground (arith, up, kept.state)

    mine : ((exit cur t).proc cur).parent ≡ some parent
    mine = ground (arith, (exit_family cur t cur hc other).2, child)

    found :
        (o : Option ℕ)
        → search_from nproc 0
            (λ i. is_child (exit cur t) parent i && same_state ((exit cur t).proc i).state zombie)
          ≡ o
        → (pid : ℕ) × ((wait_round parent (exit cur t)).0 ≡ reaped pid)
    found none e = absurd (
        search_from-none nproc 0
          (λ i. is_child (exit cur t) parent i && same_state ((exit cur t).proc i).state zombie) cur
          e (omega arith) (omega arith) (ground (arith, mine, (exit_family cur t cur hc other).0)))
    found (some i) e = (((exit cur t).proc i).pid, wait_round-reaps parent (exit cur t) i e)

    reaps : (pid : ℕ) × ((wait_round parent (exit cur t)).0 ≡ reaped pid)
    reaps =
        found
          (search_from nproc 0
            (λ i. is_child (exit cur t) parent i && same_state ((exit cur t).proc i).state zombie))
          refl

pub wakeup1-next : (c : Chan) (t : Ptable) → (wakeup1 c t).nextpid ≡ t.nextpid
unfolding wakeup1
wakeup1-next c t = refl

pub reparent-next : (n i cur : ℕ) (t : Ptable) → (reparent n i cur t).nextpid ≡ t.nextpid
reparent-next zero i cur t = unfold reparent in refl
reparent-next (suc n) i cur t =
    rw (reparent-unfold n i cur t)
      (reparent-next n (i + 1) cur (reparent_step i cur t) ∙ unfold wakeup1 in ground arith)
