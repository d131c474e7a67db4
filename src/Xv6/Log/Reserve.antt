-- ===== src/Xv6/Log/Reserve.antt =====
-- lab3/xv6-public/log.c: the reservations of begin_op as a system of steps.
use cs.Prelude.{
  ℕ, suc, ◌+◌, ◌-◌, ◌*◌, ◌≤◌, ◌<◌, ◌≡◌, ◌≢◌, ◌↔◌, sym, ap, ◌∙◌, arith, Bool, true, List, [], ◌∷◌,
  ◌++◌, none, some, length, length-append,
}
use cs.Xv6.Log.{Log, max_op_blocks, log_size, begin_op, end_op, end_commit, log_write, logged}

-- The log, and for each running operation how many blocks it may still add: an operation may log at
-- most 10 blocks that the transaction does not hold.
pub record Running : Type 0 where
  pub log : Log
  pub budgets : List ℕ

-- What the operations of any processes do, each under `log.lock`.
pub data Step (r : Running) : Running → Type 0 where
  begin :
      {l : Log}
      → begin_op r.log ≡ some l
      → Step r (record { log = l; budgets = max_op_blocks ∷ r.budgets })
  write_new :
      {l : Log} (b c : ℕ) (xs ys : List ℕ)
      → r.budgets ≡ xs ++ (suc c ∷ ys)
      → log_write r.log b ≡ some l
      → Step r (record { log = l; budgets = xs ++ (c ∷ ys) })
  write_again :
      {l : Log} (b : ℕ)
      → logged r.log.blocks b ≡ true
      → log_write r.log b ≡ some l
      → Step r (record r { log = l })
  leave :
      {l : Log} (last : Bool) (c : ℕ) (xs ys : List ℕ)
      → r.budgets ≡ xs ++ (c ∷ ys)
      → end_op r.log ≡ some (last, l)
      → Step r (record { log = l; budgets = xs ++ ys })
  committed : r.log.committing ≡ true → Step r (record r { log = end_commit r.log })

pub data Reach (r : Running) : Running → Type 0 where
  here : Reach r r
  next : {s t : Running} → Reach r s → Step s t → Reach r t

unfoldable pub sum : List ℕ → ℕ
sum [] = 0
sum (x ∷ xs) = x + sum xs

abbrev pub AllSmall : List ℕ → Type 0
AllSmall [] = Unit {0}
AllSmall (x ∷ xs) = (x ≤ max_op_blocks) × AllSmall xs

-- What the reservations guarantee.
pub record IsReserved (r : Running) : Type 0 where
  pub fits : length r.log.blocks + sum r.budgets ≤ log_size
  pub counted : r.log.outstanding ≡ length r.budgets
  pub small : AllSmall r.budgets
  pub quiet : r.log.committing ≡ true → length r.budgets ≡ 0

sum-append : (xs ys : List ℕ) → sum (xs ++ ys) ≡ sum xs + sum ys
unfolding sum
sum-append [] ys = omega arith
sum-append (x ∷ xs) ys = omega (arith, sum-append xs ys)

sum-le : (xs : List ℕ) → AllSmall xs → sum xs ≤ length xs * max_op_blocks
unfolding sum
sum-le [] h = omega arith
sum-le (x ∷ xs) h = omega (arith, h.0, sum-le xs h.1)

AllSmall-replace :
    (xs ys : List ℕ) (c : ℕ) → AllSmall (xs ++ (suc c ∷ ys)) → AllSmall (xs ++ (c ∷ ys))
AllSmall-replace [] ys c h = (omega (arith, h.0), h.1)
AllSmall-replace (x ∷ xs) ys c h = (h.0, AllSmall-replace xs ys c h.1)

AllSmall-remove : (xs ys : List ℕ) (c : ℕ) → AllSmall (xs ++ (c ∷ ys)) → AllSmall (xs ++ ys)
AllSmall-remove [] ys c h = h.1
AllSmall-remove (x ∷ xs) ys c h = (h.0, AllSmall-remove xs ys c h.1)

-- The figures of a list of budgets around one of them.
sizes :
    (xs ys : List ℕ) (c : ℕ)
    → (sum (xs ++ (c ∷ ys)) ≡ sum xs + (c + sum ys))
      × (length (xs ++ (c ∷ ys)) ≡ length xs + suc (length ys))
unfolding sum
sizes xs ys c = (sum-append xs (c ∷ ys), length-append xs (c ∷ ys))

log_write-effect :
    (l : Log) (b : ℕ) {l' : Log}
    → log_write l b ≡ some l'
    → (length l'.blocks ≤ length l.blocks + 1)
      × (l'.outstanding ≡ l.outstanding)
      × (l'.committing ≡ l.committing)
unfolding log_write
log_write-effect l b e = ground (arith, e, length-append l.blocks (b ∷ []))

-- Log absorption.
log_write-again :
    (l : Log) (b : ℕ) {l' : Log} → logged l.blocks b ≡ true → log_write l b ≡ some l' → l ≡ l'
unfolding log_write
log_write-again l b known e = ground (arith, e)

end_op-effect :
    (l : Log) {last : Bool} {l' : Log}
    → end_op l ≡ some (last, l')
    → (l'.blocks ≡ l.blocks)
      × (l'.outstanding ≡ l.outstanding - 1)
      × (l'.committing ≡ true → l.outstanding ≤ 1)
unfolding end_op
end_op-effect l e = (ground (arith, e), ground (arith, e), ground (arith, e))

-- Each step keeps the invariant.
pub Step-IsReserved : {r s : Running} → Step r s → IsReserved r → IsReserved s
unfolding begin_op end_commit sum
Step-IsReserved {r} (begin e) v = record {
  fits = ground (arith, e, v, sum-le r.budgets v.small);
  counted = ground (arith, e, v);
  small = (omega arith, v.small);
  quiet = ground (arith, e, v);
}
Step-IsReserved {r} (write_new b c xs ys split e) v = record {
  fits = omega (arith, log_write-effect r.log b e, before, after, v.fits);
  counted = omega (arith, log_write-effect r.log b e, before, after, v.counted);
  small = AllSmall-replace xs ys c (rw split at v.small);
  quiet = λ h. absurd (omega (arith, before, v.quiet (sym (log_write-effect r.log b e).2 ∙ h)));
}
  where
    before :
        (sum r.budgets ≡ sum xs + (suc c + sum ys))
        × (length r.budgets ≡ length xs + suc (length ys))
    before = rw split (sizes xs ys (suc c))

    after :
        (sum (xs ++ (c ∷ ys)) ≡ sum xs + (c + sum ys))
        × (length (xs ++ (c ∷ ys)) ≡ length xs + suc (length ys))
    after = sizes xs ys c
Step-IsReserved {r} (write_again b known e) v = record {
  fits = rw (← log_write-again r.log b known e) v.fits;
  counted = rw (← log_write-again r.log b known e) v.counted;
  small = v.small;
  quiet = rw (← log_write-again r.log b known e) v.quiet;
}
Step-IsReserved {r} (leave last c xs ys split e) v = record {
  fits = omega (arith, ap length (end_op-effect r.log e).0, before, sum-append xs ys, v.fits);
  counted = omega (arith, end_op-effect r.log e, before, length-append xs ys, v.counted);
  small = AllSmall-remove xs ys c (rw split at v.small);
  quiet = λ h. omega (arith, (end_op-effect r.log e).2 h, before, length-append xs ys, v.counted);
}
  where
    before :
        (sum r.budgets ≡ sum xs + (c + sum ys)) × (length r.budgets ≡ length xs + suc (length ys))
    before = rw split (sizes xs ys c)
Step-IsReserved {r} (committed e) v = record {
  fits = ground (arith, v);
  counted = ground (arith, v);
  small = v.small;
  quiet = ground arith;
}

Reach-IsReserved : {r s : Running} → Reach r s → IsReserved r → IsReserved s
Reach-IsReserved here v = v
Reach-IsReserved (next path step) v = Step-IsReserved step (Reach-IsReserved path v)

-- However operations begin, log blocks, end and commit from a state that keeps the reservation
-- invariant: while some operation may still add a block, log_write of any block panics exactly
-- where the transaction's blocks and one more, for the header, are as many as the log's blocks or
-- more; the transaction has fewer than 30 blocks, and end_op does not panic.
pub log_write-panic :
    {r s : Running} (b c : ℕ) (xs ys : List ℕ)
    → IsReserved r
    → Reach r s
    → s.budgets ≡ xs ++ (suc c ∷ ys)
    → ((log_write s.log b ≡ none) ↔ (s.log.size ≤ length s.log.blocks + 1))
      × (end_op s.log ≢ none)
      × (length s.log.blocks < log_size)
unfolding log_write end_op
log_write-panic {r} {s} b c xs ys v path split =
    let w = Reach-IsReserved path v in
    let one : (sum s.budgets ≡ sum xs + (suc c + sum ys))
        × (length s.budgets ≡ length xs + suc (length ys)) =
      rw split (sizes xs ys (suc c)) in
    let below : length s.log.blocks < log_size = omega (arith, w.fits, one) in
    let active : 0 < s.log.outstanding = omega (arith, w.counted, one) in
    let running : s.log.committing ≢ true = λ h. absurd (omega (arith, w.quiet h, one)) in
    (
      (λ e. ground (arith, below, active, e), λ h. ground (arith, below, active)),
      ground (arith, running),
      below,
    )
