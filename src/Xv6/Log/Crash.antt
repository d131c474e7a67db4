-- ===== src/Xv6/Log/Crash.antt =====
-- lab3/xv6-public/log.c: a commit that is cut off at any write, and the recovery.
use cs.Prelude.{
  ℕ, ◌+◌, ◌-◌, ◌≤◌, ◌<◌, ◌≡◌, ◌⊎◌, ◌∙◌, refl, ap, arith, true, List, [], ◌∷◌, length, inl, inr,
  Bool-cases, if◌then◌else◌, ◌==◌, ltb, dec_lt,
}
use cs.Xv6.Log.{
  Machine, bwrite, write_head, write_log, install_trans, commit, reboot, recover_from_log, logged,
}

-- A home block lies before the log's header, which is block `start`, or behind its last slot.
abbrev pub IsHome : ℕ → ℕ → ℕ → Type 0
IsHome start n b = (b < start) ⊎ (start + n < b)

-- Every block of a transaction is a home block.
abbrev pub AllHome : ℕ → ℕ → List ℕ → Type 0
AllHome start n [] = Unit {0}
AllHome start n (b ∷ bs) = IsHome start n b × AllHome start n bs

module _ {B : Type 0} (start : ℕ) where
  -- The slots of the log from `tail` on hold the values of the blocks `bs`.
  abbrev pub Stored : ℕ → List ℕ → (ℕ → B) → (ℕ → B) → Type 0
  Stored tail [] f val = Unit {0}
  Stored tail (b ∷ bs) f val = (f (start + tail + 1) ≡ val b) × Stored (tail + 1) bs f val

  Stored-congr :
      (tail : ℕ) (bs : List ℕ) (f g val : ℕ → B)
      → ((k : ℕ) → start < k → k ≤ start + tail + length bs → g k ≡ f k)
      → Stored tail bs f val
      → Stored tail bs g val
  Stored-congr tail [] f g val h s = tt
  Stored-congr tail (b ∷ bs) f g val h s = (
    h (start + tail + 1) (omega arith) (omega arith) ∙ s.0,
    Stored-congr (tail + 1) bs f g val (λ k lo hi. h k lo (omega arith)) s.1,
  )

  -- write_log writes the slots from `tail` on and nothing else.
  write_log-outside :
      (tail : ℕ) (bs : List ℕ) (m : Machine B) (k : ℕ)
      → (k ≤ start + tail) ⊎ (start + tail + length bs < k)
      → ((write_log start tail bs m).disk k ≡ m.disk k)
        × ((write_log start tail bs m).view k ≡ m.view k)
  unfolding write_log bwrite
  write_log-outside tail [] m k h = (refl, refl)
  write_log-outside tail (b ∷ bs) m k h = ground (
    arith,
    write_log-outside (tail + 1) bs (bwrite m (start + tail + 1) (m.view b)) k (omega arith),
  )

  write_log-counts :
      (tail : ℕ) (bs : List ℕ) (m : Machine B)
      → ((write_log start tail bs m).head ≡ m.head)
        × ((write_log start tail bs m).left ≡ m.left - length bs)
  unfolding write_log bwrite
  write_log-counts tail [] m = ground arith
  write_log-counts tail (b ∷ bs) m =
      ground (arith, write_log-counts (tail + 1) bs (bwrite m (start + tail + 1) (m.view b)))

  -- With power for all of it, write_log stores the values of the blocks, on the disk and in memory.
  write_log-Stored :
      (n tail : ℕ) (bs : List ℕ) (m : Machine B) (val : ℕ → B)
      → tail + length bs ≤ n
      → length bs ≤ m.left
      → AllHome start n bs
      → ((k : ℕ) → IsHome start n k → m.view k ≡ val k)
      → Stored tail bs (write_log start tail bs m).disk val
        × Stored tail bs (write_log start tail bs m).view val
  unfolding write_log bwrite
  write_log-Stored n tail [] m val room power home same = (tt, tt)
  write_log-Stored n tail (b ∷ bs) m val room power home same =
      let m' = bwrite m (start + tail + 1) (m.view b) in
      let (d, v) =
        write_log-Stored n (tail + 1) bs m' val (omega arith) (ground arith) home.1
          (λ k h. ground (arith, same k h)) in
      let (d0, v0) = write_log-outside (tail + 1) bs m' (start + tail + 1) (omega arith) in
      ((ground (arith, d0, same b home.0), d), (ground (arith, v0, same b home.0), v))

  install_trans-counts :
      (tail : ℕ) (bs : List ℕ) (m : Machine B)
      → ((install_trans start tail bs m).head ≡ m.head)
        × ((install_trans start tail bs m).left ≡ m.left - length bs)
  unfolding install_trans bwrite
  install_trans-counts tail [] m = ground arith
  install_trans-counts tail (b ∷ bs) m =
      ground (arith, install_trans-counts (tail + 1) bs (bwrite m b (m.view (start + tail + 1))))

  -- install_trans leaves the blocks of the log.
  install_trans-slots :
      (n tail : ℕ) (bs : List ℕ) (m : Machine B) (k : ℕ)
      → AllHome start n bs
      → start < k
      → k ≤ start + n
      → ((install_trans start tail bs m).disk k ≡ m.disk k)
        × ((install_trans start tail bs m).view k ≡ m.view k)
  unfolding install_trans bwrite
  install_trans-slots n tail [] m k home lo hi = (refl, refl)
  install_trans-slots n tail (b ∷ bs) m k home lo hi = ground (
    arith,
    install_trans-slots n (tail + 1) bs (bwrite m b (m.view (start + tail + 1))) k home.1 lo hi,
    home.0,
  )

  -- A block on the disk after install_trans has its old content or its logged one; it has the logged
  -- one if the power lasts.
  install_trans-blocks :
      (n tail : ℕ) (bs : List ℕ) (m : Machine B) (val : ℕ → B) (k : ℕ)
      → tail + length bs ≤ n
      → AllHome start n bs
      → Stored tail bs m.view val
      → (((install_trans start tail bs m).disk k ≡ m.disk k)
          ⊎ ((logged bs k ≡ true) × ((install_trans start tail bs m).disk k ≡ val k)))
        × (length bs ≤ m.left
            → (install_trans start tail bs m).disk k ≡ (if logged bs k then val k else m.disk k))
  unfolding install_trans bwrite logged
  install_trans-blocks n tail [] m val k room home st = (inl refl, λ h. refl)
  install_trans-blocks n tail (b ∷ bs) m val k room home st =
      let m' = bwrite m b (m.view (start + tail + 1)) in
      let st' : Stored (tail + 1) bs m'.view val =
        Stored-congr (tail + 1) bs m.view m'.view val (λ j lo hi. ground (arith, home.0)) st.1 in
      let (either, all) = install_trans-blocks n (tail + 1) bs m' val k (omega arith) home.1 st' in
      let same : b ≡ k → m.view (start + tail + 1) ≡ val k = λ e. st.0 ∙ ap val e in
      elim (Bool-cases (b == k)) [
        | inl hit ↦ (ground (arith, either, same), λ power. ground (arith, all, same))
        | inr miss ↦ (ground (arith, either), λ power. ground (arith, all))
      ]

  install_trans-off :
      (tail : ℕ) (bs : List ℕ) (m : Machine B)
      → m.left ≡ 0
      → (install_trans start tail bs m).disk ≡ m.disk
  unfolding install_trans bwrite
  install_trans-off tail [] m off = refl
  install_trans-off tail (b ∷ bs) m off =
      ground (arith, install_trans-off (tail + 1) bs (bwrite m b (m.view (start + tail + 1))))

  write_head-off : (m : Machine B) (bs : List ℕ) → m.left ≡ 0 → write_head m bs ≡ m
  unfolding write_head
  write_head-off m bs off = ground arith

  write_head-on :
      (m : Machine B) (bs : List ℕ)
      → 0 < m.left
      → write_head m bs ≡ record m { head = bs; left = m.left - 1 }
  unfolding write_head
  write_head-on m bs on = ground arith

  -- Recovery from a header that lists `bs`.
  recover-disk :
      (m : Machine B) (left : ℕ) (bs : List ℕ)
      → m.head ≡ bs
      → (recover_from_log start (reboot m left)).disk
        ≡ (install_trans start 0 bs (reboot m left)).disk
  unfolding recover_from_log write_head reboot
  recover-disk m left bs e = rw (← e) (ground arith)

-- What is on the disk after a commit that the power cut short, and after the recovery from it.
module _ {B : Type 0} (start n : ℕ) (bs : List ℕ) (m : Machine B) (room : length bs ≤ n)
    (home : AllHome start n bs) (clean : m.head ≡ []) (left : ℕ) (power : n < left) where
  abbrev written : Machine B
  written = write_log start 0 bs m

  abbrev done : Machine B
  done = write_head (install_trans start 0 bs (write_head written bs)) []

  outside : (k : ℕ) → IsHome start n k → written.disk k ≡ m.disk k
  outside k h = (write_log-outside start 0 bs m k (omega arith)).0

  -- The power fails before the header is written.
  lost :
      m.left ≤ length bs
      → (k : ℕ) → IsHome start n k
      → (recover_from_log start (reboot done left)).disk k ≡ m.disk k
  unfolding install_trans reboot
  lost short k h =
      let (head, counts) = write_log-counts start 0 bs m in
      let off : written.left ≡ 0 = omega (arith, counts) in
      let I = install_trans start 0 bs written in
      let (head', counts') = install_trans-counts start 0 bs written in
      let same : done ≡ I =
        ap (λ x. write_head (install_trans start 0 bs x) []) (write_head-off start written bs off)
        ∙ write_head-off start I [] (omega (arith, counts')) in
      ap (λ x. (recover_from_log start (reboot x left)).disk k) same
      ∙ ap (λ f. f k) (recover-disk start I left [] (head' ∙ head ∙ clean))
      ∙ ap (λ f. f k) (install_trans-off start 0 bs written off)
      ∙ outside k h

  module _ (long : length bs < m.left) where
    -- The machine right after the header is on the disk.
    abbrev marked : Machine B
    marked = record written { head = bs; left = written.left - 1 }

    abbrev installed : Machine B
    installed = install_trans start 0 bs marked

    is_marked : write_head written bs ≡ marked
    is_marked = write_head-on start written bs (omega (arith, (write_log-counts start 0 bs m).1))

    stored : Stored start 0 bs written.disk m.view × Stored start 0 bs written.view m.view
    stored = write_log-Stored start n 0 bs m m.view (omega arith) (omega arith) home (λ k h. refl)

    blocks :
        (k : ℕ)
        → ((installed.disk k ≡ written.disk k)
            ⊎ ((logged bs k ≡ true) × (installed.disk k ≡ m.view k)))
          × (length bs ≤ marked.left
              → installed.disk k ≡ (if logged bs k then m.view k else written.disk k))
    blocks k = install_trans-blocks start n 0 bs marked m.view k (omega arith) home stored.1

    kept :
        (k : ℕ)
        → IsHome start n k
        → (recover_from_log start (reboot done left)).disk k
          ≡ (if logged bs k then m.view k else m.disk k)
    unfolding install_trans reboot
    kept k h = elim (dec_lt 0 installed.left) [
      | yes on ↦
          let finished : Machine B = record installed { head = []; left = installed.left - 1 } in
          let same : done ≡ finished =
            ap (λ x. write_head (install_trans start 0 bs x) []) is_marked
            ∙ write_head-on start installed [] on in
          ap (λ x. (recover_from_log start (reboot x left)).disk k) same
          ∙ ap (λ f. f k) (recover-disk start finished left [] refl)
          ∙ (blocks k).1 (omega (arith, (install_trans-counts start 0 bs marked).1))
          ∙ ap (λ x. if logged bs k then m.view k else x) (outside k h)
      | no off ↦
          let same : done ≡ installed =
            ap (λ x. write_head (install_trans start 0 bs x) []) is_marked
            ∙ write_head-off start installed [] (omega arith) in
          let again =
            (install_trans-blocks start n 0 bs (reboot installed left) m.view k (omega arith) home
                slots).1
              (omega arith) in
          ap (λ x. (recover_from_log start (reboot x left)).disk k) same
          ∙ ap (λ f. f k)
              (recover-disk start installed left bs (install_trans-counts start 0 bs marked).0)
          ∙ again
          ∙ ground (arith, (blocks k).0, outside k h)
    ]
      where
        slots : Stored start 0 bs installed.disk m.view
        slots =
            Stored-congr start 0 bs written.disk installed.disk m.view
              (λ j lo hi. (install_trans-slots start n 0 bs marked j home lo (omega arith)).0)
              stored.0

nothing :
    {B : Type 0} (start : ℕ) (m : Machine B) (left k : ℕ)
    → (install_trans start 0 [] (reboot m left)).disk k ≡ (
        if ltb (length {A = ℕ} []) m.left
        then (if logged [] k then m.view k else m.disk k)
        else m.disk k)
unfolding install_trans reboot logged
nothing start m left k = ground arith

-- On an empty on-disk header and for a transaction of home blocks, which lie before the log's
-- header or behind the last of its `n` slots, that fits these slots: the power may fail before
-- any disk write of commit. After a recovery with power for more than `n` writes, each home block
-- of the transaction has its new content if more writes than the transaction has blocks were
-- made, and else its old content; every other home block is as before.
pub commit_atomic :
    {B : Type 0} (start n : ℕ) (bs : List ℕ) (m : Machine B) (left : ℕ)
    → length bs ≤ n
    → AllHome start n bs
    → m.head ≡ []
    → n < left
    → (k : ℕ) → IsHome start n k
    → (recover_from_log start (reboot (commit start bs m) left)).disk k
      ≡ (if ltb (length bs) m.left then (if logged bs k then m.view k else m.disk k) else m.disk k)
unfolding commit
commit_atomic start n [] m left room home clean power k h =
    ap (λ f. f k) (recover-disk start m left [] clean) ∙ nothing start m left k
commit_atomic start n (b ∷ bs) m left room home clean power k h =
    elim (Bool-cases (ltb (length (b ∷ bs)) m.left)) [
      | inl long ↦ rw long (kept start n (b ∷ bs) m room home clean left power (ground arith) k h)
      | inr short ↦ rw short (lost start n (b ∷ bs) m room home clean left power (ground arith) k h)
    ]
