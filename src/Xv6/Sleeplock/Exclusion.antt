-- ===== src/Xv6/Sleeplock/Exclusion.antt =====
-- lab3/xv6-public/sleeplock.c: the processes between an acquisition and its release.
use cs.Prelude.{
  ℕ, ◌≤◌, ◌≡◌, ◌⊎◌, inl, inr, refl, sym, ◌∙◌, arith, true, false, none, some, List, [], ◌∷◌, length,
  ap, ◌++◌,
}
use cs.Xv6.Sleeplock.{Sleeplock, acquiresleep, releasesleep, holdingsleep}

-- The lock, and the processes between an acquiresleep that returned and their releasesleep.
pub record Holding : Type 0 where
  pub lock : Sleeplock
  pub inside : List ℕ

-- A process leaves by releasesleep only after holdingsleep said that it holds the lock.
pub data Step (h : Holding) : Holding → Type 0 where
  enters :
      {lk : Sleeplock} (pid : ℕ)
      → acquiresleep pid h.lock ≡ some lk
      → Step h (record { lock = lk; inside = pid ∷ h.inside })
  leaves :
      (pid : ℕ) (xs ys : List ℕ)
      → h.inside ≡ xs ++ (pid ∷ ys)
      → holdingsleep pid h.lock ≡ true
      → Step h (record { lock = releasesleep h.lock; inside = xs ++ ys })

pub data Reach (h : Holding) : Holding → Type 0 where
  here : Reach h h
  next : {i j : Holding} → Reach h i → Step i j → Reach h j

-- The lock is free and nobody inside, or held by the only process inside.
abbrev pub IsHeld : Holding → Type 0
IsHeld h =
    ((h.lock.locked ≡ false) × (h.inside ≡ []))
    ⊎ ((pid : ℕ) × (h.lock.locked ≡ true) × (h.lock.pid ≡ pid) × (h.inside ≡ pid ∷ []))

last_leaves : (p q : ℕ) (xs ys : List ℕ) → xs ++ (p ∷ ys) ≡ q ∷ [] → xs ++ ys ≡ []
last_leaves p q [] ys e = ground (arith, e)
last_leaves p q (x ∷ []) ys e = absurd (omega (arith, ap length e))
last_leaves p q (x ∷ y ∷ xs) ys e = absurd (omega (arith, ap length e))

Step-IsHeld : {h i : Holding} → Step h i → IsHeld h → IsHeld i
unfolding acquiresleep releasesleep holdingsleep
Step-IsHeld {h} (enters pid e) (inl (off, nobody)) =
    inr (pid, ground (arith, e, off), ground (arith, e, off), rw nobody refl)
Step-IsHeld {h} (enters pid e) (inr (p, on, same, one)) = absurd (ground (arith, e, on))
Step-IsHeld {h} (leaves pid xs ys split holds) (inl (off, nobody)) =
    absurd (ground (arith, holds, off))
Step-IsHeld {h} (leaves pid xs ys split holds) (inr (p, on, same, one)) =
    inl (refl, last_leaves pid p xs ys (sym split ∙ one))

-- However processes acquire and release a sleep lock, from a state where it is free and nobody
-- inside or held by the only process inside: at most one process is inside, and while one is,
-- acquiresleep of any process sleeps.
pub lock_exclusion :
    {h i : Holding} (pid : ℕ)
    → IsHeld h
    → Reach h i
    → (length i.inside ≤ 1) × ((i.inside ≡ []) ⊎ (acquiresleep pid i.lock ≡ none))
unfolding acquiresleep
lock_exclusion {h} {i} pid v path = elim (reached path) [
  | inl (off, nobody) ↦ (ground (arith, ap length nobody), inl nobody)
  | inr (p, on, same, one) ↦ (ground (arith, ap length one), inr (ground (arith, on)))
]
  where
    reached : {j : Holding} → Reach h j → IsHeld j
    reached here = v
    reached (next path step) = Step-IsHeld step (reached path)
