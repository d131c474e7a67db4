-- ===== src/Xv6/Inode/Blocks.antt =====
-- lab3/xv6-public/fs.c: the map from a file's blocks to the device's.
use cs.Prelude.{
  ℕ, ◌-◌, ◌≡◌, ◌≢◌, ◌∙◌, refl, ap, arith, true, false, not, if◌then◌else◌, ltb, ◌==◌, Option, none,
  some, Option-cases, Bool-cases, inl, inr,
}
use cs.Prelude.Search.{search_from, search_from-lt}
use cs.Xv6.Inode.{Device, ndirect, nindirect, put_addr, balloc, bmap_addr, bmap_entry, bmap}

-- balloc takes a free block and marks it; the other blocks and marks stay.
balloc-takes :
    (d : Device) {b : ℕ} {d' : Device}
    → balloc d ≡ some (b, d')
    → (d.used b ≡ false) × ((k : ℕ) → d'.used k ≡ (if k == b then true else d.used k))
unfolding balloc
balloc-takes d {b} {d'} e = go (search_from d.size 0 (λ k. not (d.used k))) refl
  where
    go :
        (o : Option ℕ)
        → search_from d.size 0 (λ k. not (d.used k)) ≡ o
        → (d.used b ≡ false) × ((k : ℕ) → d'.used k ≡ (if k == b then true else d.used k))
    go none f = absurd (ground (arith, e, f))
    go (some r) f =
        let same : r ≡ b = ground (arith, e, f) in
        let (lo, hi, free) = search_from-lt d.size 0 (λ k. not (d.used k)) {r = b} (rw same at f) in
        (ground (arith, free), λ k. ground (arith, e, f))

-- The address that is found or allocated is not 0, and is in the table from then on.
bmap_addr-keeps :
    (d : Device) (addrs : ℕ → ℕ) (n : ℕ) {b : ℕ} {addrs' : ℕ → ℕ} {d' : Device}
    → d.used 0 ≡ true
    → (addrs n ≢ 0 → d.used (addrs n) ≡ true)
    → bmap_addr d addrs n ≡ some (b, addrs', d')
    → (b ≢ 0) × (addrs' n ≡ b) × (d'.used 0 ≡ true) × (d'.used b ≡ true)
unfolding bmap_addr
bmap_addr-keeps d addrs n {b} {addrs'} {d'} boot known e = elim (Bool-cases (addrs n == 0)) [
  | inr there ↦
      let here : addrs n ≡ b = ground (arith, e, there) in
      let table : addrs ≡ addrs' = ground (arith, e, there) in
      let device : d ≡ d' = ground (arith, e, there) in
      let real : addrs n ≢ 0 = ground (arith, there) in
      (
        ground (arith, here, real),
        rw (← table) here,
        rw (← device) boot,
        rw (← device, ← here) (known real),
      )
  | inl absent ↦ elim (Option-cases (balloc d)) [
    | inl f ↦ absurd (ground (arith, e, f, absent))
    | inr (r, f) ↦
        let (free, marked) = balloc-takes d {b = r.0} {d' = r.1} f in
        let here : r.0 ≡ b = ground (arith, e, f, absent) in
        let table : put_addr addrs n r.0 ≡ addrs' = ground (arith, e, f, absent) in
        let device : r.1 ≡ d' = ground (arith, e, f, absent) in
        (
          λ z. absurd (ground (arith, free, boot, ap d.used (here ∙ z))),
          rw (← table) (ground (arith, here)),
          rw (← device) (ground (arith, marked 0, boot)),
          rw (← device, ← here) (ground (arith, marked r.0)),
        )
  ]
]

bmap_addr-again :
    (d : Device) (addrs : ℕ → ℕ) (n b : ℕ)
    → b ≢ 0
    → addrs n ≡ b
    → bmap_addr d addrs n ≡ some (b, addrs, d)
unfolding bmap_addr
bmap_addr-again d addrs n b h e = ground (arith, e)

bmap_entry-keeps :
    (d : Device) (at bn : ℕ) {b : ℕ} {d' : Device}
    → d.used 0 ≡ true
    → bmap_entry d at bn ≡ some (b, d')
    → (b ≢ 0) × (d'.block at bn ≡ b)
unfolding bmap_entry
bmap_entry-keeps d at bn {b} {d'} boot e = elim (Bool-cases (d.block at bn == 0)) [
  | inr there ↦ (ground (arith, e, there), ground (arith, e, there))
  | inl absent ↦ elim (Option-cases (balloc d)) [
    | inl f ↦ absurd (ground (arith, e, f, absent))
    | inr (r, f) ↦
        let (free, marked) = balloc-takes d {b = r.0} {d' = r.1} f in
        let here : r.0 ≡ b = ground (arith, e, f, absent) in
        let device : record r.1 {
          block = λ k. if k == at then put_addr (r.1.block at) bn r.0 else r.1.block k;
        }
            ≡ d' =
          ground (arith, e, f, absent) in
        (
          λ z. absurd (ground (arith, free, boot, ap d.used (here ∙ z))),
          rw (← device) (ground (arith, here)),
        )
  ]
]

bmap_entry-again :
    (d : Device) (at bn b : ℕ) → b ≢ 0 → d.block at bn ≡ b → bmap_entry d at bn ≡ some (b, d)
unfolding bmap_entry
bmap_entry-again d at bn b h e = ground (arith, e)

-- When block 0 and every address in an inode's table that is not 0 are marked as used, a call of
-- bmap that does not panic gives a block other than 0, and a second call with the addresses and
-- the device that it left gives the same block and changes nothing.
pub bmap-bmap :
    (d : Device) (addrs : ℕ → ℕ) (bn : ℕ) {b : ℕ} {addrs' : ℕ → ℕ} {d' : Device}
    → d.used 0 ≡ true
    → ((k : ℕ) → addrs k ≢ 0 → d.used (addrs k) ≡ true)
    → bmap d addrs bn ≡ some (b, addrs', d')
    → (b ≢ 0) × (bmap d' addrs' bn ≡ some (b, addrs', d'))
unfolding bmap
bmap-bmap d addrs bn {b} {addrs'} {d'} boot known e = elim (Bool-cases (ltb bn ndirect)) [
  | inl direct ↦
      let e' : bmap_addr d addrs bn ≡ some (b, addrs', d') = ground (arith, e, direct) in
      let (real, stored, _, _) = bmap_addr-keeps d addrs bn boot (known bn) e' in
      (real, ground (arith, direct, bmap_addr-again d' addrs' bn b real stored))
  | inr far ↦ elim (Bool-cases (ltb (bn - ndirect) nindirect)) [
    | inr out ↦ absurd (ground (arith, e, far, out))
    | inl inside ↦ elim (Option-cases (bmap_addr d addrs ndirect)) [
      | inl f ↦ absurd (ground (arith, e, f, far, inside))
      | inr ((at, addrs1, d1), f) ↦
          let (real_at, stored_at, boot1, _) =
            bmap_addr-keeps d addrs ndirect boot (known ndirect) f in
          elim (Option-cases (bmap_entry d1 at (bn - ndirect))) [
            | inl g ↦ absurd (ground (arith, e, f, g, far, inside))
            | inr ((b2, d2), g) ↦
                let (real, stored) = bmap_entry-keeps d1 at (bn - ndirect) boot1 g in
                let here : b2 ≡ b = ground (arith, e, f, g, far, inside) in
                let table : addrs1 ≡ addrs' = ground (arith, e, f, g, far, inside) in
                let device : d2 ≡ d' = ground (arith, e, f, g, far, inside) in
                (
                  rw (← here) real,
                  rw (← here, ← table, ← device)
                      (ground (
                        arith,
                        far,
                        inside,
                        bmap_addr-again d2 addrs1 ndirect at real_at stored_at,
                        bmap_entry-again d2 at (bn - ndirect) b2 real stored,
                      )),
                )
          ]
    ]
  ]
]
