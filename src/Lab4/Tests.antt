-- ===== src/Lab4/Tests.antt =====
-- lab4/xv6-public: a process of three pages of which the last has no entry.
use cs.Prelude.{
  ℕ, ◌+◌, ◌*◌, ◌≡◌, ◌⊎◌, refl, arith, [], ◌∷◌, true, none, some, if◌then◌else◌, ◌==◌, ◌&&◌,
}
use cs.Lab4.Vm.{Ram, walkpgdir}
use cs.Lab4.Copy.{copyuvm}
use cs.Lab4.Copy.Keeps.{IsPage, listed}
use cs.Lab4.Copy.Absent.{copyuvm_absent, IsApart}
use cs.Lab4.Lazy.{page_fault}
use cs.Lab4.Lazy.Fault.{IsDir, IsMapped, page_fault_maps, page_fault_remap}

-- Pages of the kernel by number.
abbrev page : ℕ → ℕ
page n = 0x80400000 + n * 4096

-- The page directory is page 0, its first table page 1; pages 2 and 3 are those of the process.
abbrev ram : Ram
ram = record {
  free = page 4 ∷ page 5 ∷ page 6 ∷ [];
  word = λ w k.
      if (w == page 0) && (k == 0)
      then 0x401007
      else if (w == page 1) && (k == 0)
      then 0x402007
      else if (w == page 1) && (k == 1)
      then 0x403007
      else 0;
}

ram-IsPage : (v : ℕ) → listed v ram.free ≡ true → IsPage v
ram-IsPage v e = ground (arith, e)

ram-IsApart : IsApart (page 0) ram
ram-IsApart = (refl, λ i p. ground (arith, p))

copyuvm_absent_example :
    (copyuvm 0x80110000 0x80108000 (page 0) 12288 ram ≡ none)
    ⊎ ((r : Ram) × (copyuvm 0x80110000 0x80108000 (page 0) 12288 ram ≡ some (none, r)))
unfolding walkpgdir
copyuvm_absent_example =
    copyuvm_absent 0x80110000 0x80108000 (page 0) 12288 2 ram ram-IsPage refl ram-IsApart
      (omega arith) refl

ram-IsDir : IsDir (page 0) ram
ram-IsDir = record {
  dir_used = refl;
  table_used = λ i p. ground (arith, p);
  table_apart = λ i p. ground (arith, p);
  distinct = λ i j p q e. ground (arith, p, q);
}

page_fault_maps_example :
    (r : Ram) × (page_fault 0x80110000 (page 0) 8200 ram ≡ some r)
    × IsMapped (page 0) 8200 (page 4) ram r
unfolding walkpgdir
page_fault_maps_example =
    page_fault_maps 0x80110000 (page 0) 8200 (page 4) (page 5) (page 6 ∷ []) ram (omega arith)
      ram-IsDir refl (omega arith) (ram-IsPage (page 4) refl) (ram-IsPage (page 5) refl) refl

page_fault_remap_example : page_fault 0x80110000 (page 0) 4100 ram ≡ none
unfolding walkpgdir
page_fault_remap_example =
    page_fault_remap 0x80110000 (page 0) 4100 (page 4) 0x403007 (page 5 ∷ page 6 ∷ []) ram
      (omega arith) ram-IsDir refl (ram-IsPage (page 4) refl) refl
