-- ===== src/Traffic.antt =====
-- proj1_test: the programs that test the semaphores. A process that is not forked yet is one that has
-- not moved.
pub mod Critical
pub mod Order
mod Tests
use cs.Prelude.{ℕ, zero, suc, Option, none, some, List, [], ◌∷◌, ◌++◌, ◌≡◌}
use cs.Semaphore.{Semaphores}

-- A process of trafficsim-mutex.c: before its next iteration, with the iterations left, or in the
-- critical section.
pub data Worker : Type 0 where
  outside : ℕ → Worker
  critical : ℕ → Worker

-- The lines of trafficsim-strict-order.c.
pub data Line : Type 0 where
  first_line second_line last_line : Line

-- Where the parent and the two children stand.
pub data Parent : Type 0 where
  prints ups waits exits : Parent

pub data FirstChild : Type 0 where
  first_downs first_prints first_ups first_exits : FirstChild

pub data SecondChild : Type 0 where
  second_downs second_prints second_exits : SecondChild

module _ (sys : Semaphores) where
  open sys use {Sem, new, down, up}

  -- The body of the loop; `none` where the process sleeps or has ended.
  unfoldable pub work : Sem → Worker → Option (Sem × Worker)
  work s (outside zero) = none
  work s (outside (suc n)) = elim (down s) [ none ↦ none | some t ↦ some (t, critical n) ]
  work s (critical n) = some (up s, outside n)

  pub record Program : Type 0 where
    pub sem : Sem
    pub nextsem : Sem
    pub parent : Parent
    pub first : FirstChild
    pub second : SecondChild
    pub output : List Line

  abbrev pub start : Program
  start = record {
    sem = new 0;
    nextsem = new 0;
    parent = prints;
    first = first_downs;
    second = second_downs;
    output = [];
  }

  -- The parent; its two calls of wait end when both children have.
  abbrev pub parent_from : Program → Parent → FirstChild → SecondChild → Option Program
  parent_from p prints _ _ =
      some (record p { parent = ups; output = p.output ++ (first_line ∷ []) })
  parent_from p ups _ _ = some (record p { parent = waits; sem = up p.sem })
  parent_from p waits first_exits second_exits = some (record p { parent = exits })
  parent_from p waits _ _ = none
  parent_from p exits _ _ = none

  abbrev pub first_from : Program → FirstChild → Option Program
  first_from p first_downs = elim (down p.sem) [
    | none ↦ none
    | some s ↦ some (record p { first = first_prints; sem = s })
  ]
  first_from p first_prints =
      some (record p { first = first_ups; output = p.output ++ (second_line ∷ []) })
  first_from p first_ups = some (record p { first = first_exits; nextsem = up p.nextsem })
  first_from p first_exits = none

  abbrev pub second_from : Program → SecondChild → Option Program
  second_from p second_downs = elim (down p.nextsem) [
    | none ↦ none
    | some s ↦ some (record p { second = second_prints; nextsem = s })
  ]
  second_from p second_prints =
      some (record p { second = second_exits; output = p.output ++ (last_line ∷ []) })
  second_from p second_exits = none

  pub data Step (p : Program) : Program → Type 0 where
    parent_moves : {q : Program} → parent_from p p.parent p.first p.second ≡ some q → Step p q
    first_moves : {q : Program} → first_from p p.first ≡ some q → Step p q
    second_moves : {q : Program} → second_from p p.second ≡ some q → Step p q

  pub data Reach (p : Program) : Program → Type 0 where
    here : Reach p p
    next : {q r : Program} → Reach p q → Step q r → Reach p r
