-- ===== src/Vmm/Tests.antt =====
-- A machine of eight pages, with the pages 0 and 1 in use: the top table, empty, is page 1.
use flyos.Base.{ℕ, ◌≡◌, refl, arith, ◌⊎◌, ◌==◌, if◌then◌else◌}
use flyos.Pmm.Bitmap.{bitmap_test, bitmap_set}
use flyos.Pmm.Defs.{Pmm, alloc_page}
use flyos.Pmm.Alloc.{IsFull}
use flyos.Pmm.Valid.{IsValid, count_used}
use flyos.Vmm.Defs
use flyos.Vmm.Defs.{
  Frames, Vmm, is_huge, addr_of, next_table, split_huge_pd, map_in_pd, map_plain, unmap, get_phys,
  get_phys_pd, pml4_idx, pdpt_idx, pd_idx,
}
use flyos.Vmm.Clone.{clone_pml4_deep}
use flyos.Vmm.Keeps.{Keeps, clone_pml4_deep-Keeps}
use flyos.Vmm.Translate.{IsWalk, map-get_phys}
use flyos.Vmm.Split.{split_huge_pd-get_phys}

abbrev eight : Pmm
eight = record {
  bitmap = λ i. if i == 0 then 3 else 0;
  total_pages = 8;
  used_pages = 2;
  search_hint = 0;
}

eight-IsValid : IsValid eight
unfolding count_used bitmap_test
eight-IsValid = record {
  bytes = λ i. ground arith;
  counted = refl;
  hint = omega arith;
  bounded = omega arith;
}

abbrev empty : Vmm
empty = record { frames = λ t j. 0; cr3 = 4096; pmm = eight }

empty-IsWalk : (virt : ℕ) → IsWalk virt empty
unfolding bitmap_test
empty-IsWalk virt = record {
  valid = eight-IsValid;
  zero_used = refl;
  clean = (refl, ((λ e. absurd (omega arith)), tt), λ p h. absurd (ground (arith, p)));
}

map_runs : get_phys 0x40123 (Defs.map 0x40000 0x9000 6 empty) ≡ 0x9123
unfolding get_phys Defs.map next_table split_huge_pd map_in_pd map_plain alloc_page bitmap_test
    bitmap_set
map_runs = refl

map-get_phys_example :
    let s' = Defs.map 0x40123 0x9000 6 empty in (get_phys 0x40123 s' ≡ 0x9123) ⊎ IsFull s'.pmm
map-get_phys_example = map-get_phys 0x40123 0x9000 6 empty (empty-IsWalk 0x40123) (omega arith)

-- A directory in page 1, with a huge page at 2 MB in its entry 1.
abbrev huge : Vmm
huge = record {
  frames = λ t j. if t == 4096 then if j == 1 then 0x200083 else 0 else 0;
  cr3 = 4096;
  pmm = eight;
}

split_huge_pd-get_phys_example :
    let s' = (split_huge_pd 4096 1 huge).1 in
    get_phys_pd s'.frames 0x2A7123 (s'.frames 4096 1) ≡ get_phys_pd huge.frames 0x2A7123 0x200083
unfolding bitmap_test
split_huge_pd-get_phys_example =
    split_huge_pd-get_phys 0x2A7123 4096 1 huge eight-IsValid refl refl refl (omega arith)

clone_pml4_deep-Keeps_example :
    Keeps huge (clone_pml4_deep (record { addr = 0; pitch = 0; height = 0 }) 4096 huge).1
clone_pml4_deep-Keeps_example =
    clone_pml4_deep-Keeps (record { addr = 0; pitch = 0; height = 0 }) 4096 huge eight-IsValid
