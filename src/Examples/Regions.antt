-- ===== src/Examples/Regions.antt =====
-- The tests of code/playground/raw-alloc.cc over a system that keeps its regions in a list.
use lab_cpp.Base.{ℕ, ◌≡◌, refl, arith, ap, none, some, List, [], ◌∷◌}
use lab_cpp.Playground.RawAlloc.{System, Test, mmap_munmap_inplace, mmap_munmap_newplace}
use lab_cpp.Playground.RawAlloc.Balance.{Mapping, regions_returned}

abbrev without_first : List (ℕ × ℕ) → List (ℕ × ℕ)
without_first [] = []
without_first (region ∷ regions) = regions

abbrev system : System
system = record {
  World = List (ℕ × ℕ);
  pagesize = 4096;
  mmap = λ address length huge w. (some address, (address, length) ∷ w);
  munmap = λ ptr length w. (0, without_first w);
  madvise = λ ptr length w. (0, w);
  memset = λ ptr value length w. w;
}

mapped_lem :
    (address length ptr : ℕ) (w : List (ℕ × ℕ))
    → some address ≡ some ptr
    → (address, length) ∷ w ≡ (ptr, length) ∷ w
mapped_lem address length ptr w e = ground arith

not_failed : {A : Type 0} {w v : A} (address : ℕ) → some address ≡ none → w ≡ v
not_failed address e = cc

abbrev mapping : Mapping system
mapping = record {
  regions = λ w. w;
  mapped = λ address length ptr huge w e. mapped_lem address length ptr w e;
  failed = λ address length huge w e. not_failed address e;
  painted = λ ptr value length w. refl;
  unmapped = λ ptr length w rest e. (refl, ap without_first e);
}

abbrev test : Test system
test = record { world = (4096, 8192) ∷ []; out = []; errors = [] }

regions_returned_example :
    (mapping.regions (mmap_munmap_inplace system 2 100 0 test).world ≡ (4096, 8192) ∷ [])
    × (mapping.regions (mmap_munmap_newplace system 2 100 0 test).world ≡ (4096, 8192) ∷ [])
regions_returned_example = regions_returned system mapping 2 100 test
