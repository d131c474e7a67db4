-- ===== src/User/Umalloc/Scan.antt =====
-- lab3/xv6-public/umalloc.c: the loop of malloc once round the free list.
use cs.Prelude.{
  ℕ, zero, suc, ◌+◌, ◌*◌, ◌≤◌, ◌<◌, ◌≡◌, ◌≢◌, ◌⊎◌, ◌∙◌, refl, sym, ap, subst, arith, Bool, Option,
  some, List, [], ◌∷◌, ltb, leb, length, Bool-cases, inl, inr,
}
use cs.User.Umalloc.{Arena, take_block, malloc_loop}
use cs.User.Umalloc.Place.{Chain, Among, Chain-Among}
use cs.User.Umalloc.Free.{IsFreeList}

malloc_loop-hit :
    (can_grow : ℕ → ℕ → Bool) (fuel : ℕ) (a : Arena) (n v p : ℕ)
    → n ≤ a.size p
    → malloc_loop can_grow (suc fuel) a n v p ≡ some (take_block a n v p)
unfolding malloc_loop
malloc_loop-hit can_grow fuel a n v p fits = ground (arith, fits)

malloc_loop-next :
    (can_grow : ℕ → ℕ → Bool) (fuel : ℕ) (a : Arena) (n v p : ℕ)
    → a.size p < n
    → p ≢ a.freep
    → malloc_loop can_grow (suc fuel) a n v p ≡ malloc_loop can_grow fuel a n p (a.ptr p)
unfolding malloc_loop
malloc_loop-next can_grow fuel a n v p small ne = ground (arith, small, ne)

-- `P` holds for the result if it holds where a block is large enough, and where none was and the loop
-- is back at `freep`.
module _ (can_grow : ℕ → ℕ → Bool) (a : Arena) (n base N : ℕ) (all : List ℕ)
    (P : Option (ℕ × Arena) → Type 0)
    (hit : (v x : ℕ)
      → Among v all
      → a.ptr v ≡ x
      → n ≤ a.size x
      → P (some (take_block a n v x))) where
  here_small :
      (g p : ℕ) (ys : List ℕ) (to : ℕ)
      → Chain a p ys to
      → g ≡ p
      → a.size p < n
      → (k : ℕ) → Among k (p ∷ ys)
      → k ≤ g
      → a.size k < n
  here_small g p ys to c e small k (inl here) le = rw here small
  here_small g p ys to c e small k (inr m) le =
      absurd (omega (arith, Chain-Among a p ys to k c m, le, e))

  front_here :
      (p : ℕ) (ys : List ℕ) (to : ℕ)
      → Chain a p ys to
      → a.freep ≡ p
      → (v : ℕ) → Among v all
      → a.ptr v ≡ p
      → ((v fuel : ℕ)
          → N ≤ fuel
          → ((k : ℕ) → Among k (p ∷ ys) → k ≤ a.freep → a.size k < n)
          → P (malloc_loop can_grow (suc fuel) a n v a.freep))
      → (fuel : ℕ) → N ≤ fuel
      → P (malloc_loop can_grow (suc fuel) a n v p)
  front_here p ys to c e v m e' miss fuel enough = elim (Bool-cases (leb n (a.size p))) [
    | inl big ↦
        subst P (sym (malloc_loop-hit can_grow fuel a n v p (ground (arith, big))))
          (hit v p m e' (ground (arith, big)))
    | inr small ↦
        subst (λ z. P (malloc_loop can_grow (suc fuel) a n v z)) e
          (miss v fuel enough (here_small a.freep p ys to c e (ground (arith, small))))
  ]

  -- From the start of the list to `freep`.
  front :
      (p : ℕ) (ys : List ℕ) (to : ℕ)
      → Chain a p ys to
      → ((k : ℕ) → Among k (p ∷ ys) → Among k all)
      → Among a.freep (p ∷ ys)
      → (v : ℕ) → Among v all
      → a.ptr v ≡ p
      → ((v fuel : ℕ)
          → N ≤ fuel
          → ((k : ℕ) → Among k (p ∷ ys) → k ≤ a.freep → a.size k < n)
          → P (malloc_loop can_grow (suc fuel) a n v a.freep))
      → (fuel : ℕ) → length ys + N ≤ fuel
      → P (malloc_loop can_grow (suc fuel) a n v p)
  front p [] to c in_all (inl e) v m e' miss fuel enough =
      front_here p [] to c e v m e' miss fuel (omega (arith, enough))
  front p [] to c in_all (inr g) v m e' miss fuel enough = absurd g
  front p (x ∷ ys) to c in_all (inl e) v m e' miss fuel enough =
      front_here p (x ∷ ys) to c e v m e' miss fuel (omega (arith, enough))
  front p (x ∷ ys) to c in_all (inr g) v m e' miss zero enough = absurd (omega (arith, enough))
  front p (x ∷ ys) to c in_all (inr g) v m e' miss (suc fuel) enough =
      elim (Bool-cases (leb n (a.size p))) [
        | inl big ↦
            subst P (sym (malloc_loop-hit can_grow (suc fuel) a n v p (ground (arith, big))))
              (hit v p m e' (ground (arith, big)))
        | inr small ↦
            let other : p ≢ a.freep =
              λ e. absurd (omega (arith, e, Chain-Among a p (x ∷ ys) to a.freep c g)) in
            let next =
              malloc_loop-next can_grow (suc fuel) a n v p (ground (arith, small)) other
              ∙ ap (malloc_loop can_grow (suc fuel) a n p) c.0 in
            subst P (sym next) (
              front x ys to c.4 (λ k m'. in_all k (inr m')) g p (in_all p (inl refl)) c.0
                (λ v' fuel' le small'. miss v' fuel' le (λ k m' le'. elim m' [
                  | inl here ↦ rw here (ground (arith, small))
                  | inr m'' ↦ small' k m'' le'
                ]))
                fuel (omega (arith, enough)))
      ]

  -- From `freep` on to the end of the list.
  tail :
      (M p : ℕ) (ys : List ℕ)
      → Chain a p ys base
      → a.freep ≤ p
      → ((k : ℕ) → Among k (p ∷ ys) → Among k all)
      → (((k : ℕ) → Among k ys → a.size k < n)
          → (v : ℕ) → Among v all
          → a.ptr v ≡ base
          → (fuel : ℕ) → M ≤ fuel
          → P (malloc_loop can_grow fuel a n v base))
      → (fuel : ℕ) → length ys + M ≤ fuel
      → P (malloc_loop can_grow fuel a n p (a.ptr p))
  tail M p [] c le in_all end fuel enough =
      subst (λ z. P (malloc_loop can_grow fuel a n p z)) (sym c)
        (end (λ k m. absurd m) p (in_all p (inl refl)) c fuel (omega (arith, enough)))
  tail M p (x ∷ ys) c le in_all end zero enough = absurd (omega (arith, enough))
  tail M p (x ∷ ys) c le in_all end (suc fuel) enough =
      subst (λ z. P (malloc_loop can_grow (suc fuel) a n p z)) (sym c.0)
        (elim (Bool-cases (leb n (a.size x))) [
          | inl big ↦
              subst P (sym (malloc_loop-hit can_grow fuel a n p x (ground (arith, big))))
                (hit p x (in_all p (inl refl)) c.0 (ground (arith, big)))
          | inr small ↦
              let other : x ≢ a.freep = λ e. absurd (omega (arith, e, le, c.1)) in
              subst P (sym (malloc_loop-next can_grow fuel a n p x (ground (arith, small)) other)) (
                tail M x ys c.4 (omega (arith, le, c.1)) (λ k m. in_all k (inr m))
                  (λ small'. end (λ k m. elim m [
                    | inl here ↦ rw here (ground (arith, small))
                    | inr m' ↦ small' k m'
                  ]))
                  fuel (omega (arith, enough)))
        ])

  start :
      (M p : ℕ) (ys : List ℕ)
      → Chain a p ys base
      → Among a.freep (p ∷ ys)
      → ((k : ℕ) → Among k (p ∷ ys) → Among k all)
      → (((k : ℕ) → Among k (p ∷ ys) → a.freep < k → a.size k < n)
          → (v : ℕ) → Among v all
          → a.ptr v ≡ base
          → (fuel : ℕ) → M ≤ fuel
          → P (malloc_loop can_grow fuel a n v base))
      → (fuel : ℕ) → length ys + M ≤ fuel
      → P (malloc_loop can_grow fuel a n a.freep (a.ptr a.freep))
  start M p ys c (inl e) in_all end fuel enough =
      subst (λ z. P (malloc_loop can_grow fuel a n z (a.ptr z))) (sym e)
        (tail M p ys c (omega (arith, e)) in_all
          (λ small. end (λ k m lt. elim m [
            | inl here ↦ absurd (omega (arith, here, lt, e))
            | inr m' ↦ small k m'
          ]))
          fuel enough)
  start M p [] c (inr g) in_all end fuel enough = absurd g
  start M p (x ∷ ys) c (inr g) in_all end fuel enough =
      start M x ys c.4 g (λ k m. in_all k (inr m))
        (λ small. end (λ k m lt. elim m [
          | inl here ↦ absurd (omega (arith, here, lt, Chain-Among a p (x ∷ ys) base a.freep c g))
          | inr m' ↦ small k m' lt
        ]))
        fuel (omega (arith, enough))

ℕ-cases : (k : ℕ) → (k ≡ 0) ⊎ ((j : ℕ) × (k ≡ suc j))
ℕ-cases zero = inl refl
ℕ-cases (suc j) = inr (j, refl)

pub scan :
    (can_grow : ℕ → ℕ → Bool) (a : Arena) (n base N : ℕ) (xs : List ℕ)
    (P : Option (ℕ × Arena) → Type 0)
    → IsFreeList base a xs
    → ((v x : ℕ) → Among v (base ∷ xs) → a.ptr v ≡ x → n ≤ a.size x → P (some (take_block a n v x)))
    → ((v fuel : ℕ)
        → N ≤ fuel
        → ((k : ℕ) → Among k (base ∷ xs) → a.size k < n)
        → P (malloc_loop can_grow (suc fuel) a n v a.freep))
    → (fuel : ℕ) → 2 * length xs + N + 1 ≤ fuel
    → P (malloc_loop can_grow fuel a n a.freep (a.ptr a.freep))
scan can_grow a n base N xs P l hit miss fuel enough =
    start can_grow a n base N (base ∷ xs) P hit (length xs + N + 1) base xs l.chain l.start
      (λ k m. m)
      (λ small v m e fuel' le. elim (ℕ-cases fuel') [
        | inl none_left ↦ absurd (omega (arith, none_left, le))
        | inr (f, same) ↦
            subst (λ z. P (malloc_loop can_grow z a n v base)) (sym same)
              (front can_grow a n base N (base ∷ xs) P hit base xs base l.chain (λ k m'. m') l.start
                v m e
                (λ v' f' le' small'. miss v' f' le' (λ k m'. elim (Bool-cases (ltb a.freep k)) [
                  | inl after ↦ small k m' (ground (arith, after))
                  | inr before ↦ small' k m' (ground (arith, before))
                ]))
                f (omega (arith, same, le)))
      ])
      fuel (omega (arith, enough))
