-- ===== src/Xv6/Proc.antt =====
-- lab3/xv6-public/proc.c and sys_setpriority of sysproc.c: the process table under `ptable.lock`.
-- A process that sleeps or yields is described up to its call of sched. Its open files and its
-- current directory belong to other modules of the kernel and are not part of the table here.
pub mod Schedule
pub mod Pids
pub mod Steps
pub mod Sleep
mod Tests
use cs.Prelude.{
  ℕ, zero, suc, ◌+◌, ◌%◌, ◌^◌, ◌-◌, Bool, true, false, ◌&&◌, ◌||◌, not, List, [], ◌∷◌,
  if◌then◌else◌, ◌==◌, ltb, leb, Option, none, some,
}
use cs.Prelude.Search.{search_from}

-- `enum procstate`
pub data State : Type 0 where
  unused embryo sleeping runnable running zombie : State

abbrev pub same_state : State → State → Bool
same_state unused unused = true
same_state embryo embryo = true
same_state sleeping sleeping = true
same_state runnable runnable = true
same_state running running = true
same_state zombie zombie = true
same_state _ _ = false

-- What a process sleeps on: nothing, a process's own slot, or the address of another object.
pub data Chan : Type 0 where
  nowhere : Chan
  at_proc : ℕ → Chan
  at_object : ℕ → Chan

abbrev pub same_chan : Chan → Chan → Bool
same_chan nowhere nowhere = true
same_chan (at_proc i) (at_proc j) = i == j
same_chan (at_object a) (at_object b) = a == b
same_chan _ _ = false

-- `struct proc`; `frame` stands for the trap frame but for its `eax`, and a null pointer is 0.
pub record Proc : Type 0 where
  pub sz : ℕ
  pub pgdir : ℕ
  pub kstack : ℕ
  pub state : State
  pub pid : ℕ
  pub parent : Option ℕ
  pub frame : ℕ
  pub eax : ℕ
  pub chan : Chan
  pub killed : Bool
  pub name : List ℕ
  pub priority : ℕ

-- `ptable`, `nextpid` and `initproc`.
pub record Ptable : Type 0 where
  pub proc : ℕ → Proc
  pub nextpid : ℕ
  pub initproc : ℕ

abbrev pub nproc : ℕ
nproc = 64

abbrev pub put_proc : Ptable → ℕ → Proc → Ptable
put_proc t i p = record t { proc = λ k. if k == i then p else t.proc k }

abbrev pub is_child : Ptable → ℕ → ℕ → Bool
is_child t parent i = elim ((t.proc i).parent) [ none ↦ false | some j ↦ j == parent ]

-- `kstack` is what kalloc returns. `nextpid` is an `int`, here its 32 bits, and wraps; a pid is its
-- value.
unfoldable pub allocproc : ℕ → Ptable → Option ℕ × Ptable
allocproc kstack t = elim (search_from nproc 0 (λ i. same_state (t.proc i).state unused)) [
  | none ↦ (none, t)
  | some i ↦
      let named = record (t.proc i) { pid = t.nextpid; priority = 50; kstack = kstack } in
      let t' = record t { nextpid = (t.nextpid + 1) % 2 ^ 32 } in
      if kstack == 0
      then (none, put_proc t' i (record named { state = unused }))
      else (some i, put_proc t' i (record named { state = embryo }))
]

-- fork after allocproc gave the slot `i`; `pgdir` is what copyuvm returns. The result is the pid, or
-- -1. The lock is free between allocproc and this part.
unfoldable pub fork_rest : ℕ → ℕ → ℕ → Ptable → Option ℕ × Ptable
fork_rest cur i pgdir t =
    let np = t.proc i in
    let me = t.proc cur in
    if pgdir == 0
    then (none, put_proc t i (record np { pgdir = 0; kstack = 0; state = unused }))
    else (
      some np.pid,
      put_proc t i (record np {
        pgdir = pgdir;
        sz = me.sz;
        parent = some cur;
        frame = me.frame;
        eax = 0;
        name = me.name;
        state = runnable;
      }),
    )

-- fork where no other process runs between its two parts.
unfoldable pub fork : ℕ → ℕ → ℕ → Ptable → Option ℕ × Ptable
fork cur kstack pgdir t =
    let (slot, t') = allocproc kstack t in
    elim slot [ none ↦ (none, t') | some i ↦ fork_rest cur i pgdir t' ]

abbrev pub wake : Chan → Proc → Proc
wake c p =
    if same_state p.state sleeping && same_chan p.chan c then record p { state = runnable } else p

-- `wakeup1`, and `wakeup` under the lock.
unfoldable pub wakeup1 : Chan → Ptable → Ptable
wakeup1 c t = record t { proc = λ i. if ltb i nproc then wake c (t.proc i) else t.proc i }

-- The loop of exit over the children, from slot `i` with `n` rounds left.
unfoldable pub reparent : ℕ → ℕ → ℕ → Ptable → Ptable
reparent zero i cur t = t
reparent (suc n) i cur t =
    let given = put_proc t i (record (t.proc i) { parent = some t.initproc }) in
    let woken =
      if same_state (t.proc i).state zombie then wakeup1 (at_proc t.initproc) given else given in
    reparent n (i + 1) cur (if is_child t cur i then woken else t)

abbrev pub chan_of : Option ℕ → Chan
chan_of none = nowhere
chan_of (some i) = at_proc i

-- exit, from the acquisition of the lock to the call of sched.
unfoldable pub exit : ℕ → Ptable → Ptable
exit cur t =
    let t' = reparent nproc 0 cur (wakeup1 (chan_of (t.proc cur).parent) t) in
    put_proc t' cur (record (t'.proc cur) { state = zombie })

-- How a round of the loop of wait ends: with the pid of a child, with -1, or asleep.
pub data Waited : Type 0 where
  reaped : ℕ → Waited
  no_child : Waited
  asleep : Waited

-- What wait leaves of a child.
abbrev pub cleared : Proc → Proc
cleared p = record p {
  kstack = 0;
  pid = 0;
  parent = none;
  name = [];
  killed = false;
  state = unused;
}

unfoldable pub wait_round : ℕ → Ptable → Waited × Ptable
wait_round cur t =
    elim (search_from nproc 0 (λ i. is_child t cur i && same_state (t.proc i).state zombie)) [
      | some i ↦ (reaped (t.proc i).pid, put_proc t i (cleared (t.proc i)))
      | none ↦ elim (search_from nproc 0 (is_child t cur)) [
        | none ↦ (no_child, t)
        | some i ↦ if (t.proc cur).killed then (no_child, t) else (
          asleep,
          put_proc t cur (record (t.proc cur) { chan = at_proc cur; state = sleeping }),
        )
      ]
    ]

unfoldable pub yield : ℕ → Ptable → Ptable
yield cur t = put_proc t cur (record (t.proc cur) { state = runnable })

-- sleep up to its call of sched, and from there on.
unfoldable pub sleep : ℕ → Chan → Ptable → Ptable
sleep cur c t = put_proc t cur (record (t.proc cur) { chan = c; state = sleeping })

unfoldable pub wake_up : ℕ → Ptable → Ptable
wake_up cur t = put_proc t cur (record (t.proc cur) { chan = nowhere })

unfoldable pub kill : ℕ → Ptable → Bool × Ptable
kill pid t = elim (search_from nproc 0 (λ i. (t.proc i).pid == pid)) [
  | none ↦ (false, t)
  | some i ↦
      let p = t.proc i in
      (
        true,
        put_proc t i (record p {
          killed = true;
          state = if same_state p.state sleeping then runnable else p.state;
        }),
      )
]

-- `priority` of the call is a natural number here; a negative one is refused like one above 200.
unfoldable pub sys_setpriority : ℕ → ℕ → Ptable → Bool × Ptable
sys_setpriority cur priority t =
    let set = put_proc t cur (record (t.proc cur) { priority = priority }) in
    if ltb 200 priority
    then (false, t)
    else (true, if ltb (t.proc cur).priority priority then yield cur set else set)

-- The first loop of scheduler: the least priority value of a runnable process, from slot `i` on.
unfoldable pub least_from : ℕ → ℕ → Ptable → ℕ → ℕ
least_from zero i t best = best
least_from (suc n) i t best =
    let p = t.proc i in
    least_from n (i + 1) t
      (if same_state p.state runnable && ltb p.priority best then p.priority else best)

-- The second loop: the slots that are run, in order. `swtch` is what the rest of the system does
-- between the switch to the process of a slot and the switch back.
unfoldable pub run_from : (ℕ → Ptable → Ptable) → ℕ → ℕ → ℕ → Ptable → List ℕ × Ptable
run_from swtch zero i best t = ([], t)
run_from swtch (suc n) i best t =
    let p = t.proc i in
    let chosen = same_state p.state runnable && (p.priority == best) in
    let rest =
      run_from swtch n (i + 1) best
        (if chosen then swtch i (put_proc t i (record p { state = running })) else t) in
    (if chosen then i ∷ rest.0 else rest.0, rest.1)

-- One round of the loop of scheduler.
unfoldable pub scheduler : (ℕ → Ptable → Ptable) → Ptable → List ℕ × Ptable
scheduler swtch t = run_from swtch nproc 0 (least_from nproc 0 t 201) t
