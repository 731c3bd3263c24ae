-- ===== src/Playground/RawAlloc/Balance.antt =====
-- The regions that the tests of code/playground/raw-alloc.cc leave mapped.
use lab_cpp.Base.{
  ℕ, zero, suc, ◌+◌, ◌*◌, ◌≡◌, refl, ◌∙◌, ap, false, Bool, none, some, List, ◌∷◌, Option-cases, inl,
  inr, arith, length,
}
use lab_cpp.Base.Decimal.{print_ℕ}
use lab_cpp.Base.Text.{Text}
use lab_cpp.Playground.RawAlloc.{
  System, Test, map_region, unmap_region, go_on, with_region, paint, mapping_line, checked,
  base_address, allocation_size, mmap_munmap_inplace, mmap_munmap_newplace, mmap_madv_newplace,
  advise_region,
}

-- The regions that are mapped, as the system documents its calls: a mapping adds its region, memset
-- leaves them, and munmap takes off a region that is mapped, and succeeds.
pub record Mapping (S : System) : Type 0 where
  pub regions : S.World → List (ℕ × ℕ)
  pub mapped :
      (address length ptr : ℕ) (huge : Bool) (w : S.World)
      → (S.mmap address length huge w).0 ≡ some ptr
      → regions (S.mmap address length huge w).1 ≡ (ptr, length) ∷ regions w
  pub failed :
      (address length : ℕ) (huge : Bool) (w : S.World)
      → (S.mmap address length huge w).0 ≡ none
      → regions (S.mmap address length huge w).1 ≡ regions w
  pub painted :
      (ptr value length : ℕ) (w : S.World) → regions (S.memset ptr value length w) ≡ regions w
  pub unmapped :
      (ptr length : ℕ) (w : S.World) (rest : List (ℕ × ℕ))
      → regions w ≡ (ptr, length) ∷ rest
      → ((S.munmap ptr length w).0 ≡ 0) × (regions (S.munmap ptr length w).1 ≡ rest)

module _ (S : System) (M : Mapping S) (nb_page : ℕ) where
  -- One round: whatever the rest of the loop does with the regions, it does with those that were there.
  round :
      (count : Text) (address value : ℕ) (rest : Test S → Test S) (t : Test S)
      → ((u : Test S) → M.regions (rest u).world ≡ M.regions u.world)
      → M.regions
          (with_region S (map_region S count address (allocation_size S nb_page) false t) (λ ptr u.
            go_on S
              (unmap_region S ptr
                (allocation_size S nb_page)
                (paint S ptr value (allocation_size S nb_page) u))
              rest)).world
        ≡ M.regions t.world
  unfolding with_region map_region mapping_line unmap_region checked go_on
  round count address value rest t h =
      elim (Option-cases (S.mmap address (allocation_size S nb_page) false t.world).0) [
        | inl e ↦
            rw (e, map_region, mapping_line, with_region)
              (M.failed address (allocation_size S nb_page) false t.world e)
        | inr (ptr, e) ↦
            let n = allocation_size S nb_page in
            let w = (S.mmap address n false t.world).1 in
            let (zero_result, back) =
              M.unmapped ptr n (S.memset ptr value n w) (M.regions t.world)
                (M.painted ptr value n w ∙ M.mapped address n ptr false t.world e) in
            rw (e, map_region, mapping_line, with_region, zero_result, unmap_region, checked, go_on)
              (h _ ∙ back)
      ]

  inplace-regions :
      (left run_number : ℕ) (t : Test S)
      → M.regions (mmap_munmap_inplace S nb_page left run_number t).world ≡ M.regions t.world
  unfolding mmap_munmap_inplace
  inplace-regions zero run_number t = refl
  inplace-regions (suc left) run_number t =
      round (print_ℕ nb_page) (base_address S) (run_number + 1)
        (mmap_munmap_inplace S nb_page left (run_number + 1)) t
        (inplace-regions left (run_number + 1))

  newplace-regions :
      (left run_number : ℕ) (t : Test S)
      → M.regions (mmap_munmap_newplace S nb_page left run_number t).world ≡ M.regions t.world
  unfolding mmap_munmap_newplace
  newplace-regions zero run_number t = refl
  newplace-regions (suc left) run_number t =
      round (print_ℕ nb_page) (base_address S + allocation_size S nb_page * run_number)
        (run_number + 1) (mmap_munmap_newplace S nb_page left (run_number + 1)) t
        (newplace-regions left (run_number + 1))

  -- Two of the tests give back all that they map: over a system that keeps its regions as it
  -- documents, mmap_munmap_inplace and mmap_munmap_newplace, whatever the number of their rounds and
  -- of the pages, and whichever mapping fails, leave the mapped regions as they were.
  pub regions_returned :
      (rounds : ℕ) (t : Test S)
      → (M.regions (mmap_munmap_inplace S nb_page rounds 0 t).world ≡ M.regions t.world)
        × (M.regions (mmap_munmap_newplace S nb_page rounds 0 t).world ≡ M.regions t.world)
  regions_returned rounds t = (inplace-regions rounds 0 t, newplace-regions rounds 0 t)

-- The madvise test, in a new place each round.
module _ (S : System) (M : Mapping S) (nb_page : ℕ)
    (room : (a n : ℕ) (w : S.World) → (ptr : ℕ) × ((S.mmap a n false w).0 ≡ some ptr))
    (advised : (p n : ℕ) (w : S.World)
      → ((S.madvise p n w).0 ≡ 0) × (M.regions (S.madvise p n w).1 ≡ M.regions w)) where
  advise_round :
      (count : Text) (address value left : ℕ) (rest : Test S → Test S) (t : Test S)
      → ((u : Test S) → length (M.regions (rest u).world) ≡ length (M.regions u.world) + left)
      → length (
          M.regions
            (with_region S
              (map_region S count address (allocation_size S nb_page) false t)
              (λ ptr u.
                go_on S
                  (advise_region S ptr
                    (allocation_size S nb_page)
                    (paint S ptr value (allocation_size S nb_page) u))
                  rest)).world)
        ≡ length (M.regions t.world) + (left + 1)
  unfolding with_region map_region mapping_line advise_region checked go_on
  advise_round count address value left rest t h =
      let n = allocation_size S nb_page in
      let (ptr, e) = room address n t.world in
      let w = (S.mmap address n false t.world).1 in
      let (zero_result, kept) = advised ptr n (S.memset ptr value n w) in
      let more = kept ∙ M.painted ptr value n w ∙ M.mapped address n ptr false t.world e in
      rw (e, map_region, mapping_line, with_region, zero_result, advise_region, checked, go_on)
        (h _ ∙ ap (λ k. k + left) (ap length more) ∙ omega arith)

  -- The madvise test in a new place gives nothing back: over such a system that also finds room for every
  -- mapping and accepts every madvise, it leaves one region more for each round.
  pub madv_newplace_leaks :
      (left run_number : ℕ) (t : Test S)
      → length (M.regions (mmap_madv_newplace S nb_page left run_number t).world)
        ≡ length (M.regions t.world) + left
  unfolding mmap_madv_newplace
  madv_newplace_leaks zero run_number t = omega arith
  madv_newplace_leaks (suc left) run_number t =
      advise_round (print_ℕ nb_page) (base_address S + allocation_size S nb_page * run_number)
        (run_number + 1) left (mmap_madv_newplace S nb_page left (run_number + 1)) t
        (madv_newplace_leaks left (run_number + 1))
      ∙ omega arith
