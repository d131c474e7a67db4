-- ===== src/Traffic/Tests.antt =====
-- proj1_test: runs of the programs, with counts for semaphores.
use cs.Prelude.{ℕ, ◌≡◌, ◌⊎◌, refl, [], ◌∷◌, if◌then◌else◌, ◌==◌}
use cs.Semaphore.{counting}
use cs.Traffic
use cs.Traffic.{
  Program, start, Line, first_line, second_line, last_line, Parent, exits, waits, ups, FirstChild,
  first_prints, SecondChild, second_downs, Worker, outside, critical,
}
use cs.Traffic.Critical
use cs.Traffic.Critical.{critical_alone, Traffic}
use cs.Traffic.Order.{strict_order, InOrder}

abbrev workers : Traffic counting
workers = record { sem = 1; worker = λ k. outside 2 }

abbrev entered : Traffic counting
entered = record { sem = 0; worker = λ k. if k == 1 then critical 1 else outside 2 }

entered-Reach : Critical.Reach counting workers entered
unfolding Traffic.work
entered-Reach = Critical.Reach.next Critical.Reach.here (Critical.Step.moves 1 refl)

abbrev entrant : ℕ
entrant = 1

-- The parent has printed and given its unit, and the first child has taken it.
abbrev woken : Program counting
woken = record {
  sem = 0;
  nextsem = 0;
  parent = waits;
  first = first_prints;
  second = second_downs;
  output = first_line ∷ [];
}

woken-Reach : Traffic.Reach counting (start counting) woken
woken-Reach =
    Traffic.next
      (Traffic.next (Traffic.next Traffic.here (Traffic.parent_moves refl))
        (Traffic.parent_moves refl))
      (Traffic.first_moves refl)

strict_order_example :
    InOrder (first_line ∷ [])
    × (((waits ≡ exits) × (first_line ∷ [] ≡ first_line ∷ second_line ∷ last_line ∷ []))
        ⊎ ((q : Program counting) × Traffic.Step counting woken q))
strict_order_example = strict_order counting woken-Reach
