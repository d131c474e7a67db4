-- ===== src/Xv6/Log/Full.antt =====
-- lab3/xv6-public/log.c and mkfs.c: the transaction that fills the log that mkfs makes.
use cs.Prelude.{
  ℕ, zero, suc, ◌+◌, ◌≤◌, ◌<◌, ◌≡◌, ap, refl, arith, false, List, [], ◌∷◌, ◌++◌, none, some, length,
  length-append,
}
use cs.Xv6.Log.{Log, max_op_blocks, nlog, begin_op, log_write, logged}
use cs.Xv6.Log.Reserve.{Running, Reach, here, next, begin, write_new}

-- The blocks 0 to `k - 1`, in the order of their log_write.
unfoldable pub upto : ℕ → List ℕ
upto zero = []
upto (suc k) = upto k ++ (k ∷ [])

length-upto : (k : ℕ) → length (upto k) ≡ k
unfolding upto
length-upto zero = refl
length-upto (suc k) = omega (arith, length-append (upto k) (k ∷ []), length-upto k)

logged-append :
    (bs : List ℕ) (a b : ℕ) → logged bs b ≡ false → a < b → logged (bs ++ (a ∷ [])) b ≡ false
unfolding logged
logged-append [] a b h lt = ground arith
logged-append (c ∷ bs) a b h lt = ground (arith, h, logged-append bs a b)

logged-upto : (k b : ℕ) → k ≤ b → logged (upto k) b ≡ false
unfolding logged upto
logged-upto zero b h = refl
logged-upto (suc k) b h = logged-append (upto k) k b (logged-upto k b (omega arith)) (omega arith)

-- The log that mkfs makes at block `start`, with `n` operations running and `k` blocks logged.
abbrev pub with_blocks : ℕ → ℕ → ℕ → Log
with_blocks start n k = record {
  start = start;
  size = nlog;
  outstanding = n;
  committing = false;
  blocks = upto k;
}

abbrev pub idle : ℕ → Running
idle start = record { log = with_blocks start 0 0; budgets = [] }

log_write-upto :
    (start k : ℕ)
    → k + 1 < nlog
    → log_write (with_blocks start 3 k) k ≡ some (with_blocks start 3 (suc k))
unfolding log_write upto
log_write-upto start k room = ground (arith, length-upto k, logged-upto k k)

-- An operation logs `m` new blocks.
writes :
    (start m c k j : ℕ) (xs ys : List ℕ)
    → k + m < nlog
    → k + m ≡ j
    → Reach (idle start) (record { log = with_blocks start 3 k; budgets = xs ++ ((m + c) ∷ ys) })
    → Reach (idle start) (record { log = with_blocks start 3 j; budgets = xs ++ (c ∷ ys) })
writes start zero c k j xs ys room e path =
    let same : k ≡ j = omega (arith, e) in
    let none_left : zero + c ≡ c = omega arith in rw (← same, ← none_left) path
writes start (suc m) c k j xs ys room e path =
    writes start m c (suc k) j xs ys (omega arith) (omega (arith, e)) (
      next path (
        write_new k (m + c) xs ys (ap (λ n. xs ++ (n ∷ ys)) (omega arith))
          (log_write-upto start k (omega arith))))

begins :
    (start : ℕ)
    → Reach (idle start) (record {
      log = with_blocks start 3 0;
      budgets = max_op_blocks ∷ max_op_blocks ∷ max_op_blocks ∷ [];
    })
unfolding begin_op upto
begins start = next (next (next here (begin refl)) (begin refl)) (begin refl)

-- On the idle log that mkfs makes, of 30 blocks with the header, three operations can begin and
-- log 29 new blocks, so that one of them may still add the last of its 10, where log_write of any
-- block panics.
pub log_write_panics :
    (start b : ℕ)
    → (s : Running) × Reach (idle start) s
      × (s.budgets ≡ 0 ∷ 0 ∷ 1 ∷ [])
      × (log_write s.log b ≡ none)
unfolding log_write
log_write_panics start b = (
  record { log = with_blocks start 3 29; budgets = 0 ∷ 0 ∷ 1 ∷ [] },
  writes start 9 1 20 29 (0 ∷ 0 ∷ []) [] (omega arith) refl (
      writes start 10 0 10 20 (0 ∷ []) (10 ∷ []) (omega arith) refl
        (writes start 10 0 0 10 [] (10 ∷ 10 ∷ []) (omega arith) refl (begins start))),
  refl,
  ground (arith, length-upto 29),
)
