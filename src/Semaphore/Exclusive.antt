-- ===== src/Semaphore/Exclusive.antt =====
-- A semaphore as a lock: which of the processes are between a `down` and the `up` that answers it.
use cs.Prelude.{ℕ, suc, ◌≤◌, ◌≡◌, ◌⊎◌, arith, Bool, true, false, if◌then◌else◌, ◌==◌, ap}

-- A count of at most one; nobody inside while it is one; and at most one process inside.
pub record Exclusive (count : ℕ) (inside : ℕ → Bool) : Type 0 where
  pub small : count ≤ 1
  pub free : (i : ℕ) → count ≡ 1 → inside i ≡ false
  pub alone : (i j : ℕ) → inside i ≡ true → inside j ≡ true → i ≡ j

-- What a move of one process does to the count and to its own place: nothing, a `down` or an `up`.
abbrev pub Moves : ℕ → Bool → ℕ → Bool → Type 0
Moves v b v' b' =
    ((v' ≡ v) × (b' ≡ b))
    ⊎ ((v ≡ suc v') × (b ≡ false) × (b' ≡ true))
    ⊎ ((v' ≡ suc v) × (b ≡ true) × (b' ≡ false))

pub Moves-Exclusive :
    (i v v' : ℕ) (b' : Bool) (inside inside' : ℕ → Bool)
    → ((k : ℕ) → inside' k ≡ (if k == i then b' else inside k))
    → Moves v (inside i) v' b'
    → Exclusive v inside
    → Exclusive v' inside'
Moves-Exclusive i v v' b' inside inside' eq m x = record {
  small = ground (arith, m, x.small, x.free i);
  free = λ k e.
      ground (arith, eq k, m, x.small, x.free i, x.free k, x.alone i k, ap inside {x = k} {y = i});
  alone = λ j k p q. ground (
    arith,
    eq j,
    eq k,
    m,
    x.small,
    x.free j,
    x.free k,
    x.alone j k,
    ap inside {x = j} {y = i},
    ap inside {x = k} {y = i},
  );
}
