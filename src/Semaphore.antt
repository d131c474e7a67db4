-- ===== src/Semaphore.antt =====
-- The system calls cs1550_down and cs1550_up, which lab1, proj1_test and proj2 use through `down` and
-- `up`. They belong to a kernel that is not in the repository: here they are an interface.
pub mod Exclusive
use cs.Prelude.{
  ℕ, suc, ◌-◌, ◌≡◌, refl, arith, Option, none, some, Bool, true, false, if◌then◌else◌, ◌==◌,
}

-- What the programs rely on: a semaphore has a count; `down` takes one, and sleeps while there is none;
-- `up` adds one. `new` is shared memory whose `value` is assigned.
pub record Semaphores : Type 1 where
  pub Sem : Type 0
  pub new : ℕ → Sem
  pub value : Sem → ℕ
  pub down : Sem → Option Sem
  pub up : Sem → Sem
  pub new_value : (n : ℕ) → value (new n) ≡ n
  pub down_value : (s t : Sem) → down s ≡ some t → value s ≡ suc (value t)
  pub down_none : (s : Sem) → down s ≡ none → value s ≡ 0
  pub up_value : (s : Sem) → value (up s) ≡ suc (value s)

abbrev pub count_down : ℕ → Option ℕ
count_down n = if n == 0 then none else some (n - 1)

pub count_down_value : (s t : ℕ) → count_down s ≡ some t → s ≡ suc t
count_down_value s t e = ground (arith, e)

pub count_down-none : (s : ℕ) → count_down s ≡ none → s ≡ 0
count_down-none s e = ground (arith, e)

-- The interface can be met: by the counts themselves.
abbrev pub counting : Semaphores
counting = record {
  Sem = ℕ;
  new = λ n. n;
  value = λ s. s;
  down = count_down;
  up = suc;
  new_value = λ n. refl;
  down_value = count_down_value;
  down_none = count_down-none;
  up_value = λ s. refl;
}
