-- ===== src/Xv6/Inode/Bmap.antt =====
-- lab3/xv6-public/fs.c: bmap, on what a file holds.
use cs.Prelude.{
  ℕ, ◌-◌, ◌/◌, ◌≤◌, ◌<◌, ◌≡◌, ◌≢◌, ◌∙◌, refl, ap, arith, if◌then◌else◌, ltb, ◌==◌, some,
  Option-cases, Bool-cases, inl, inr, fun_ext, subst,
}
use cs.Xv6.Inode.{Device, ndirect, nindirect, put_addr, balloc, bmap_addr, bmap_entry, bmap}
use cs.Xv6.Inode.Data.{bsize}
use cs.Xv6.Inode.Content.{
  addr_of, content, IsMap, IsMap-add, IsMap-table, IsFile, Got, balloc-Got, Found, content-add,
}

-- A new direct block.
Got-direct :
    (d d1 : Device) (addrs : ℕ → ℕ) (n r : ℕ)
    → n < ndirect
    → IsFile d addrs
    → addrs n ≡ 0
    → Got d r d1
    → Found d addrs n r (put_addr addrs n r) d1
Got-direct d d1 addrs n r small f gone got =
    let real : r ≢ 0 = λ z. ground (arith, got.free, f.boot, ap d.used z) in
    let before : addr_of d addrs n ≡ 0 = ground (arith, small, gone) in
    let indirect : (j : ℕ)
        → addrs ndirect ≢ 0
        → d1.block (addrs ndirect) j ≡ d.block (addrs ndirect) j =
      λ j h. ground (
        arith,
        got.blocks (addrs ndirect) j,
        f.table_used h,
        got.free,
        ap d.used {x = addrs ndirect} {y = r},
      ) in
    let after : (m : ℕ)
        → m < 140
        → addr_of d1 (put_addr addrs n r) m ≡ (if m == n then r else addr_of d addrs m) =
      λ m lt. ground (arith, small, gone, indirect (m - ndirect)) in
    let table : put_addr addrs n r ndirect ≡ addrs ndirect = ground (arith, small) in
    record {
      is_file = rw table (
          IsMap-add (addr_of d addrs) (addr_of d1 (put_addr addrs n r)) (addrs ndirect) n r d.used
            d1.used f got.free got.marked after);
      here = ground (arith, small);
      real = real;
      same =
          content-add d d1 addrs (put_addr addrs n r) n r real before after
            (λ m lt h. fun_ext (λ j. ground (
              arith,
              got.blocks (addr_of d addrs m) j,
              f.mapped m lt h,
              got.free,
              ap d.used {x = addr_of d addrs m} {y = r},
            )))
            (λ j. ground (arith, got.blocks r j));
      kept = λ m lt h. ground (arith, after m lt, real, h);
    }

-- A direct block.
bmap_addr-direct :
    (d : Device) (addrs : ℕ → ℕ) (n : ℕ) {b : ℕ} {addrs' : ℕ → ℕ} {d' : Device}
    → n < ndirect
    → IsFile d addrs
    → bmap_addr d addrs n ≡ some (b, addrs', d')
    → Found d addrs n b addrs' d'
unfolding bmap_addr
bmap_addr-direct d addrs n {b} {addrs'} {d'} small f e = elim (Bool-cases (addrs n == 0)) [
  | inr there ↦
      let here : addrs n ≡ b = ground (arith, e, there) in
      let table : addrs ≡ addrs' = ground (arith, e, there) in
      let device : d ≡ d' = ground (arith, e, there) in
      rw (← table, ← device, ← here)
        (record {
          is_file = f;
          here = ground (arith, small);
          real = ground (arith, there);
          same = λ i lt. refl;
          kept = λ m lt h. h;
        })
  | inl absent ↦ elim (Option-cases (balloc d)) [
    | inl g ↦ absurd (ground (arith, e, g, absent))
    | inr ((r, d1), g) ↦
        let got = balloc-Got d g in
        let here : r ≡ b = ground (arith, e, g, absent) in
        let table : put_addr addrs n r ≡ addrs' = ground (arith, e, g, absent) in
        let device : d1 ≡ d' = ground (arith, e, g, absent) in
        rw (← table, ← device, ← here)
          (Got-direct d d1 addrs n r small f (ground (arith, absent)) got)
  ]
]

-- The indirect block is there, and the file holds what it held.
record HasTable (d : Device) (addrs : ℕ → ℕ) (at : ℕ) (addrs' : ℕ → ℕ) (d' : Device) : Type 0 where
  is_file : IsFile d' addrs'
  here : addrs' ndirect ≡ at
  real : at ≢ 0
  same : (i : ℕ) → i / bsize < 140 → content d' addrs' i ≡ content d addrs i
  kept : (m : ℕ) → m < 140 → addr_of d addrs m ≢ 0 → addr_of d' addrs' m ≢ 0

Got-table :
    (d d1 : Device) (addrs : ℕ → ℕ) (r : ℕ)
    → IsFile d addrs
    → addrs ndirect ≡ 0
    → Got d r d1
    → HasTable d addrs r (put_addr addrs ndirect r) d1
Got-table d d1 addrs r f gone got =
    let real : r ≢ 0 = λ z. ground (arith, got.free, f.boot, ap d.used z) in
    let after : (m : ℕ) → m < 140 → addr_of d1 (put_addr addrs ndirect r) m ≡ addr_of d addrs m =
      λ m lt. ground (arith, gone, real, got.blocks r (m - ndirect)) in
    record {
      is_file =
          IsMap-table (addr_of d addrs) (addr_of d1 (put_addr addrs ndirect r)) r d.used d1.used
            (subst (λ t. IsMap (addr_of d addrs) t d.used) gone f) got.free got.marked after;
      here = refl;
      real = real;
      same = λ i lt.
          let now = after (i / bsize) lt in
          rw now (elim (Bool-cases (addr_of d addrs (i / bsize) == 0)) [
            | inl none_there ↦ ground (arith, none_there)
            | inr some_there ↦
                let kept : d1.block (addr_of d addrs (i / bsize))
                    ≡ d.block (addr_of d addrs (i / bsize)) =
                  fun_ext (λ j. ground (
                    arith,
                    got.blocks (addr_of d addrs (i / bsize)) j,
                    f.mapped (i / bsize) lt,
                    got.free,
                    some_there,
                    ap d.used {x = addr_of d addrs (i / bsize)} {y = r},
                  )) in
                rw kept refl
          ]);
      kept = λ m lt h. ground (arith, after m lt, h);
    }

bmap_addr-table :
    (d : Device) (addrs : ℕ → ℕ) {at : ℕ} {addrs' : ℕ → ℕ} {d' : Device}
    → IsFile d addrs
    → bmap_addr d addrs ndirect ≡ some (at, addrs', d')
    → HasTable d addrs at addrs' d'
unfolding bmap_addr
bmap_addr-table d addrs {at} {addrs'} {d'} f e = elim (Bool-cases (addrs ndirect == 0)) [
  | inr there ↦
      let here : addrs ndirect ≡ at = ground (arith, e, there) in
      let table : addrs ≡ addrs' = ground (arith, e, there) in
      let device : d ≡ d' = ground (arith, e, there) in
      rw (← table, ← device, ← here)
        (record {
          is_file = f;
          here = refl;
          real = ground (arith, there);
          same = λ i lt. refl;
          kept = λ m lt h. h;
        })
  | inl absent ↦ elim (Option-cases (balloc d)) [
    | inl g ↦ absurd (ground (arith, e, g, absent))
    | inr ((r, d1), g) ↦
        let here : r ≡ at = ground (arith, e, g, absent) in
        let table : put_addr addrs ndirect r ≡ addrs' = ground (arith, e, g, absent) in
        let device : d1 ≡ d' = ground (arith, e, g, absent) in
        rw (← table, ← device, ← here)
          (Got-table d d1 addrs r f (ground (arith, absent)) (balloc-Got d g))
  ]
]

-- A block that the indirect block names.
Got-entry :
    (d d1 : Device) (addrs : ℕ → ℕ) (n r : ℕ)
    → ndirect ≤ n
    → IsFile d addrs
    → addrs ndirect ≢ 0
    → d.block (addrs ndirect) (n - ndirect) ≡ 0
    → Got d r d1
    → Found d addrs n r addrs (record d1 {
      block = λ k.
          if k == addrs ndirect
          then put_addr (d1.block (addrs ndirect)) (n - ndirect) r
          else d1.block k;
    })
Got-entry d d1 addrs n r large f there gone got =
    let at = addrs ndirect in
    let d2 : Device = record d1 {
      block = λ k. if k == at then put_addr (d1.block at) (n - ndirect) r else d1.block k;
    } in
    let real : r ≢ 0 = λ z. ground (arith, got.free, f.boot, ap d.used z) in
    let other : at ≢ r = λ z. ground (arith, f.table_used there, got.free, ap d.used z) in
    let before : addr_of d addrs n ≡ 0 = ground (arith, large, there, gone) in
    let after : (m : ℕ) → m < 140 → addr_of d2 addrs m ≡ (if m == n then r else addr_of d addrs m) =
      λ m lt. ground (arith, large, there, other, got.blocks at (m - ndirect)) in
    record {
      is_file =
          IsMap-add (addr_of d addrs) (addr_of d2 addrs) at n r d.used d2.used f got.free got.marked
            after;
      here = ground (arith, large, there);
      real = real;
      same =
          content-add d d2 addrs addrs n r real before after
            (λ m lt h. fun_ext (λ j. ground (
              arith,
              got.blocks (addr_of d addrs m) j,
              f.mapped m lt h,
              f.apart m lt h,
              got.free,
              ap d.used {x = addr_of d addrs m} {y = r},
            )))
            (λ j. ground (arith, got.blocks r j, other));
      kept = λ m lt h. ground (arith, after m lt, real, h);
    }

bmap_entry-Found :
    (d : Device) (addrs : ℕ → ℕ) (n : ℕ) {b : ℕ} {d' : Device}
    → ndirect ≤ n
    → IsFile d addrs
    → addrs ndirect ≢ 0
    → bmap_entry d (addrs ndirect) (n - ndirect) ≡ some (b, d')
    → Found d addrs n b addrs d'
unfolding bmap_entry
bmap_entry-Found d addrs n {b} {d'} large f has e =
    let at = addrs ndirect in
    elim (Bool-cases (d.block at (n - ndirect) == 0)) [
      | inr there ↦
          let here : d.block at (n - ndirect) ≡ b = ground (arith, e, there) in
          let device : d ≡ d' = ground (arith, e, there) in
          rw (← device, ← here)
            (record {
              is_file = f;
              here = ground (arith, large, has);
              real = ground (arith, there);
              same = λ i lt. refl;
              kept = λ m lt h. h;
            })
      | inl absent ↦ elim (Option-cases (balloc d)) [
        | inl g ↦ absurd (ground (arith, e, g, absent))
        | inr ((r, d1), g) ↦
            let here : r ≡ b = ground (arith, e, g, absent) in
            let device : record d1 {
              block = λ k. if k == at then put_addr (d1.block at) (n - ndirect) r else d1.block k;
            }
                ≡ d' =
              ground (arith, e, g, absent) in
            rw (← device, ← here)
              (Got-entry d d1 addrs n r large f has (ground (arith, absent)) (balloc-Got d g))
      ]
    ]

-- bmap finds or allocates a block, and the file holds what it held.
pub bmap-Found :
    (d : Device) (addrs : ℕ → ℕ) (n : ℕ) {b : ℕ} {addrs' : ℕ → ℕ} {d' : Device}
    → IsFile d addrs
    → bmap d addrs n ≡ some (b, addrs', d')
    → Found d addrs n b addrs' d'
unfolding bmap
bmap-Found d addrs n {b} {addrs'} {d'} f e = elim (Bool-cases (ltb n ndirect)) [
  | inl small ↦ bmap_addr-direct d addrs n (ground (arith, small)) f (ground (arith, e, small))
  | inr far ↦ elim (Bool-cases (ltb (n - ndirect) nindirect)) [
    | inr out ↦ absurd (ground (arith, e, far, out))
    | inl inside ↦ elim (Option-cases (bmap_addr d addrs ndirect)) [
      | inl g ↦ absurd (ground (arith, e, g, far, inside))
      | inr ((at, addrs1, d1), g) ↦
          let t = bmap_addr-table d addrs f g in
          let here : addrs1 ndirect ≡ at = t.here in
          elim (Option-cases (bmap_entry d1 at (n - ndirect))) [
            | inl h ↦ absurd (ground (arith, e, g, h, far, inside))
            | inr ((r, d2), h) ↦
                let same_b : r ≡ b = ground (arith, e, g, h, far, inside) in
                let table : addrs1 ≡ addrs' = ground (arith, e, g, h, far, inside) in
                let device : d2 ≡ d' = ground (arith, e, g, h, far, inside) in
                let x : Found d1 addrs1 n r addrs1 d2 =
                  bmap_entry-Found d1 addrs1 n (ground (arith, far)) t.is_file
                    (ground (arith, here, t.real)) (rw here h) in
                rw (← same_b, ← table, ← device)
                  (record {
                    is_file = x.is_file;
                    here = x.here;
                    real = x.real;
                    same = λ i lt. x.same i lt ∙ t.same i lt;
                    kept = λ m lt h. x.kept m lt (t.kept m lt h);
                  })
          ]
    ]
  ]
]

-- A block that is there is found, and nothing changes.
pub bmap-there :
    (d : Device) (addrs : ℕ → ℕ) (n : ℕ)
    → n < 140
    → addr_of d addrs n ≢ 0
    → bmap d addrs n ≡ some (addr_of d addrs n, addrs, d)
unfolding bmap bmap_addr bmap_entry
bmap-there d addrs n small there = ground (arith, small, there)
