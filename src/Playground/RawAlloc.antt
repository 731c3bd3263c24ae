-- ===== src/Playground/RawAlloc.antt =====
-- code/playground/raw-alloc.cc: tests that map regions of memory and give them back. The system's calls
-- are parameters, over a world of their own; what goes to std::cout and what perror is given is kept.
pub mod Balance
use lab_cpp.Base.{
  ℕ, zero, suc, ◌+◌, ◌*◌, ◌/◌, Bool, true, false, Option, none, some, List, [], ◌∷◌, ◌++◌,
  if◌then◌else◌, ◌==◌,
}
use lab_cpp.Base.Decimal.{print_ℕ}
use lab_cpp.Base.Text.{Text, codes, text_eq}

-- `mmap` takes an address, a length and whether MAP_HUGETLB is set; none is MAP_FAILED. The other
-- results are 0 or an error.
pub record System : Type 1 where
  pub World : Type 0
  pub pagesize : ℕ
  pub mmap : ℕ → ℕ → Bool → World → Option ℕ × World
  pub munmap : ℕ → ℕ → World → ℕ × World
  pub madvise : ℕ → ℕ → World → ℕ × World
  pub memset : ℕ → ℕ → ℕ → World → World

module _ (S : System) where
  pub record Test : Type 0 where
    pub world : S.World
    pub out : List Text
    pub errors : List Text

  unfoldable pub perror : Text → Test → Test
  perror message t = record t { errors = t.errors ++ message ∷ [] }

  -- What is written of a mapping.
  unfoldable pub mapping_line : (count : Text) → Option ℕ → Test → Option ℕ × Test
  unfolding perror
  mapping_line count none t = (none, perror (codes "Could not mmap") t)
  mapping_line count (some ptr) t = (
    some ptr,
    record t {
      out = t.out ++ (count ++ (codes " mmaped pages at page " ++ print_ℕ (ptr / S.pagesize))) ∷ [];
    },
  )

  unfoldable pub map_region : (count : Text) (address length : ℕ) → Bool → Test → Option ℕ × Test
  unfolding mapping_line
  map_region count address length huge t =
      let (region, w) = S.mmap address length huge t.world in
      mapping_line count region (record t { world = w })

  abbrev pub paint : ℕ → ℕ → ℕ → Test → Test
  paint ptr value length t = record t { world = S.memset ptr value length t.world }

  -- The result of a call, and whether the test goes on.
  unfoldable pub checked : Text → ℕ → Test → Bool × Test
  unfolding perror
  checked message result t = if result == 0 then (true, t) else (false, perror message t)

  unfoldable pub unmap_region : ℕ → ℕ → Test → Bool × Test
  unfolding checked
  unmap_region ptr length t =
      let (result, w) = S.munmap ptr length t.world in
      checked (codes "Could not munmap") result (record t { world = w })

  unfoldable pub advise_region : ℕ → ℕ → Test → Bool × Test
  unfolding checked
  advise_region ptr length t =
      let (result, w) = S.madvise ptr length t.world in
      checked (codes "Could not madvise") result (record t { world = w })

  -- `if (...) return;`, and the rest of the loop.
  unfoldable pub go_on : Bool × Test → (Test → Test) → Test
  go_on (false, t) rest = t
  go_on (true, t) rest = rest t

  unfoldable pub with_region : Option ℕ × Test → (ℕ → Test → Test) → Test
  with_region (none, t) rest = t
  with_region (some ptr, t) rest = rest ptr t

  -- The start of the 2^20th page.
  abbrev pub base_address : ℕ
  base_address = S.pagesize * 1_048_576

  module _ (nb_page : ℕ) where
    abbrev pub allocation_size : ℕ
    allocation_size = nb_page * S.pagesize

    -- The loops, by the rounds left.
    unfoldable pub mmap_munmap_inplace : (left run_number : ℕ) → Test → Test
    unfolding map_region unmap_region go_on with_region
    mmap_munmap_inplace zero run_number t = t
    mmap_munmap_inplace (suc left) run_number t =
        with_region (map_region (print_ℕ nb_page) base_address allocation_size false t) (λ ptr u.
          go_on (unmap_region ptr allocation_size (paint ptr (run_number + 1) allocation_size u))
            (mmap_munmap_inplace left (run_number + 1)))

    unfoldable pub mmap_munmap_newplace : (left run_number : ℕ) → Test → Test
    unfolding map_region unmap_region go_on with_region
    mmap_munmap_newplace zero run_number t = t
    mmap_munmap_newplace (suc left) run_number t =
        with_region
          (map_region (print_ℕ nb_page) (base_address + allocation_size * run_number)
            allocation_size false t)
          (λ ptr u.
            go_on (unmap_region ptr allocation_size (paint ptr (run_number + 1) allocation_size u))
              (mmap_munmap_newplace left (run_number + 1)))

    unfoldable pub repaint : ℕ → (left run_number : ℕ) → Test → Test
    unfolding advise_region go_on
    repaint ptr zero run_number t = t
    repaint ptr (suc left) run_number t =
        let painting = codes "painting pages with: " ++ print_ℕ (run_number + 1) in
        go_on
          (advise_region ptr allocation_size (
            paint ptr (run_number + 1) allocation_size (record t { out = t.out ++ painting ∷ [] })))
          (repaint ptr left (run_number + 1))

    unfoldable pub mmap_madv_inplace : Test → Test
    unfolding map_region repaint with_region
    mmap_madv_inplace t =
        with_region (map_region (print_ℕ nb_page) base_address allocation_size false t)
          (λ ptr u. repaint ptr 100 0 u)

    unfoldable pub mmap_madv_newplace : (left run_number : ℕ) → Test → Test
    unfolding map_region advise_region go_on with_region
    mmap_madv_newplace zero run_number t = t
    mmap_madv_newplace (suc left) run_number t =
        with_region
          (map_region (print_ℕ nb_page) (base_address + allocation_size * run_number)
            allocation_size false t)
          (λ ptr u.
            go_on (advise_region ptr allocation_size (paint ptr (run_number + 1) allocation_size u))
              (mmap_madv_newplace left (run_number + 1)))

  abbrev pub gigabyte : ℕ
  gigabyte = 1_073_741_824

  -- The regions of mmap_not_painted; none where a mapping has failed.
  unfoldable pub map_all : (left : ℕ) → List ℕ → Test → Option (List ℕ) × Test
  unfolding perror
  map_all zero allocations t = (some allocations, t)
  map_all (suc left) allocations t =
      let (region, w) = S.mmap 0 gigabyte false t.world in
      elim region [
        | none ↦ (none, perror (codes "Could not mmap") (record t { world = w }))
        | some ptr ↦ map_all left (allocations ++ ptr ∷ []) (record t {
          world = w;
          out =
              t.out
              ++ (print_ℕ gigabyte
                  ++ (codes " bytes mmaped at page " ++ print_ℕ (ptr / S.pagesize)))
                ∷ [];
        })
      ]

  -- The results of the second loop are not read.
  unfoldable pub unmap_all : List ℕ → Test → Test
  unmap_all [] t = t
  unmap_all (ptr ∷ allocations) t =
      unmap_all allocations (record t { world = (S.munmap ptr gigabyte t.world).1 })

  abbrev pub then_unmap : Option (List ℕ) × Test → Test
  unfolding unmap_all
  then_unmap (none, t) = t
  then_unmap (some allocations, t) = unmap_all allocations t

  unfoldable pub mmap_not_painted : (nb_allocation : ℕ) → Test → Test
  unfolding map_all unmap_all
  mmap_not_painted nb_allocation t = then_unmap (map_all nb_allocation [] t)

  unfoldable pub mmap_hugepage : (nb_page : ℕ) → Test → Test
  unfolding map_region unmap_region go_on with_region
  mmap_hugepage nb_page t =
      with_region (map_region (print_ℕ nb_page) 0 20_971_520 true t)
        (λ ptr u. go_on (unmap_region ptr 20_971_520 (paint ptr 1 20_971_520 u)) (λ v. v))

  -- `func_map`: the test of a name, and none where the handler calls a null pointer.
  unfoldable pub alloc_test : (nb_page : ℕ) → Text → Option (Test → Test)
  unfolding mmap_munmap_inplace mmap_munmap_newplace mmap_madv_inplace mmap_madv_newplace
      mmap_not_painted mmap_hugepage
  alloc_test nb_page name =
      if text_eq name (codes "mmap_munmap_inplace")
      then some (mmap_munmap_inplace nb_page 100 0)
      else (if text_eq name (codes "mmap_munmap_newplace")
          then some (mmap_munmap_newplace nb_page 100 0)
          else (if text_eq name (codes "mmap_madv_inplace")
              then some (mmap_madv_inplace nb_page)
              else (if text_eq name (codes "mmap_madv_newplace")
                  then some (mmap_madv_newplace nb_page 100 0)
                  else (if text_eq name (codes "mmap_not_painted")
                      then some (mmap_not_painted 100)
                      else (if text_eq name (codes "mmap_hugepage")
                          then some (mmap_hugepage nb_page)
                          else none)))))
