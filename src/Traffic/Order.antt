-- ===== src/Traffic/Order.antt =====
-- proj1_test/trafficsim-strict-order.c: the order of the lines, and that the program gets to its end.
use cs.Prelude.{ℕ, ◌+◌, ◌≡◌, ◌⊎◌, inl, inr, refl, arith, List, [], ◌∷◌, ◌++◌, Option-cases}
use cs.Semaphore.{Semaphores}
use cs.Traffic.{
  Line, first_line, second_line, last_line, Parent, prints, ups, exits, FirstChild, first_downs,
  first_prints, first_exits, SecondChild, second_downs, second_exits, Program, start, parent_from,
  first_from, second_from, Step, parent_moves, first_moves, second_moves, Reach, here, next,
}

-- How many units each semaphore was given, and how many were taken.
abbrev given : Parent → ℕ
given prints = 0
given ups = 0
given _ = 1

abbrev taken : FirstChild → ℕ
taken first_downs = 0
taken _ = 1

abbrev passed : FirstChild → ℕ
passed first_exits = 1
passed _ = 0

abbrev received : SecondChild → ℕ
received second_downs = 0
received _ = 1

-- The lines that each process has printed.
abbrev by_parent : Parent → List Line
by_parent prints = []
by_parent _ = first_line ∷ []

abbrev by_first : FirstChild → List Line
by_first first_downs = []
by_first first_prints = []
by_first _ = second_line ∷ []

abbrev by_second : SecondChild → List Line
by_second second_exits = last_line ∷ []
by_second _ = []

-- The output is a beginning of the three lines.
abbrev pub InOrder : List Line → Type 0
InOrder l =
    (l ≡ [])
    ⊎ (l ≡ first_line ∷ [])
    ⊎ (l ≡ first_line ∷ second_line ∷ [])
    ⊎ (l ≡ first_line ∷ second_line ∷ last_line ∷ [])

module _ (sys : Semaphores) where
  open sys use {new, value, down, up, new_value, down_value, down_none, up_value}

  record Inv (p : Program sys) : Type 0 where
    sem_count : value p.sem + taken p.first ≡ given p.parent
    next_count : value p.nextsem + received p.second ≡ passed p.first
    printed : p.output ≡ by_parent p.parent ++ (by_first p.first ++ by_second p.second)
    ended : p.parent ≡ exits → (p.first ≡ first_exits) × (p.second ≡ second_exits)

  start-Inv : Inv (start sys)
  start-Inv = record {
    sem_count = omega (arith, new_value 0);
    next_count = omega (arith, new_value 0);
    printed = refl;
    ended = ground arith;
  }

  Step-Inv : {p q : Program sys} → Step sys p q → Inv p → Inv q
  Step-Inv {p} (parent_moves e) v = record {
    sem_count = ground (arith, e, v, up_value p.sem);
    next_count = ground (arith, e, v);
    printed = ground (arith, e, v);
    ended = ground (arith, e, v);
  }
  Step-Inv {p} {q} (first_moves e) v = record {
    sem_count = ground (arith, e, v, down_value p.sem q.sem);
    next_count = ground (arith, e, v, up_value p.nextsem);
    printed = ground (arith, e, v);
    ended = ground (arith, e, v);
  }
  Step-Inv {p} {q} (second_moves e) v = record {
    sem_count = ground (arith, e, v);
    next_count = ground (arith, e, v, down_value p.nextsem q.nextsem);
    printed = ground (arith, e, v);
    ended = ground (arith, e, v);
  }

  Reach-Inv : {p q : Program sys} → Reach sys p q → Inv p → Inv q
  Reach-Inv here v = v
  Reach-Inv (next path step) v = Step-Inv step (Reach-Inv path v)

  Inv-InOrder : {p : Program sys} → Inv p → InOrder p.output
  Inv-InOrder {p} v = ground (arith, v)

  -- Where no process can move, the parent has ended.
  progress : (p : Program sys) → Inv p → (p.parent ≡ exits) ⊎ ((q : Program sys) × Step sys p q)
  progress p v = elim (Option-cases (parent_from sys p p.parent p.first p.second)) [
    | inr (q, e) ↦ inr (q, parent_moves e)
    | inl ep ↦ elim (Option-cases (first_from sys p p.first)) [
      | inr (q, e) ↦ inr (q, first_moves e)
      | inl ef ↦ elim (Option-cases (second_from sys p p.second)) [
        | inr (q, e) ↦ inr (q, second_moves e)
        | inl es ↦ inl (ground (arith, ep, ef, es, v, down_none p.sem, down_none p.nextsem))
      ]
    ]
  ]

  -- At every moment of every run of the strict-order program, the lines printed are a beginning
  -- of first, second, last. Either the parent has ended, with all three lines printed, or some
  -- process can take a step.
  pub strict_order :
      {p : Program sys}
      → Reach sys (start sys) p
      → InOrder p.output
        × (((p.parent ≡ exits) × (p.output ≡ first_line ∷ second_line ∷ last_line ∷ []))
            ⊎ ((q : Program sys) × Step sys p q))
  strict_order {p} path =
      let v = Reach-Inv path start-Inv in
      (
        Inv-InOrder v,
        elim (progress p v) [
          | inr more ↦ inr more
          | inl over ↦ inl (over, ground (arith, over, v))
        ],
      )
