-- ===== src/Playground/Pages/Provision.antt =====
-- What a run of code/playground/mem-alloc-overprov.cc prints.
use mathlib.Core.Path.{subst}
use lab_cpp.Base.{
  ℕ, zero, suc, ◌+◌, ◌*◌, ◌/◌, ◌%◌, ◌^◌, ◌≤◌, ◌≡◌, refl, ap, sym, ◌∙◌, Bool, true, ◌&&◌, Option,
  none, some, List, [], ◌∷◌, ◌++◌, length, length-append, leb, arith,
}
use lab_cpp.Base.Int.{ℤ, pos, pos_part, ◌+ℤ◌}
use lab_cpp.Base.Status.{Result, ok, err}
use lab_cpp.Base.Text.{Text}
use lab_cpp.Playground.Pages.{
  page_size, Counts, insert_page, count_pages, System, Allocs, buffer_pages, go_on, released,
  with_buffer, overprov_buffer, overprov_buffers, print_provision, overprov_repetitions,
  measure_overprov,
}

abbrev pub all_below : ℕ → List ℕ → Bool
all_below m [] = true
all_below m (x ∷ xs) = leb x m && all_below m xs

abbrev pub all_above : ℕ → List ℕ → Bool
all_above m [] = true
all_above m (x ∷ xs) = leb m x && all_above m xs

-- No number of the list is greater than a later one.
abbrev pub ascends : List ℕ → Bool
ascends [] = true
ascends (x ∷ xs) = all_above x xs && ascends xs

all_above-snoc :
    (m y : ℕ) (xs : List ℕ) → m ≤ y → all_above m xs ≡ true → all_above m (xs ++ y ∷ []) ≡ true
all_above-snoc m y [] l h = ground arith
all_above-snoc m y (x ∷ xs) l h = ground (arith, all_above-snoc m y xs l)

ascends-snoc :
    (y : ℕ) (xs : List ℕ)
    → all_below y xs ≡ true
    → ascends xs ≡ true
    → ascends (xs ++ y ∷ []) ≡ true
ascends-snoc y [] b h = refl
ascends-snoc y (x ∷ xs) b h = ground (arith, all_above-snoc x y xs, ascends-snoc y xs)

all_below_mono : (m n : ℕ) (xs : List ℕ) → m ≤ n → all_below m xs ≡ true → all_below n xs ≡ true
all_below_mono m n [] l h = refl
all_below_mono m n (x ∷ xs) l h = ground (arith, all_below_mono m n xs l)

all_below-snoc : (m : ℕ) (xs : List ℕ) → all_below m xs ≡ true → all_below m (xs ++ m ∷ []) ≡ true
all_below-snoc m [] h = ground arith
all_below-snoc m (x ∷ xs) h = ground (arith, all_below-snoc m xs)

insert_page-grows :
    (p : ℕ) (c : Counts) → length c.allocated_pages ≤ length (insert_page p c).allocated_pages
unfolding insert_page
insert_page-grows p c = ground arith

count_pages-grows :
    (left page : ℕ) (c : Counts)
    → length c.allocated_pages ≤ length (count_pages left page c).allocated_pages
unfolding count_pages
count_pages-grows zero page c = omega arith
count_pages-grows (suc left) page c = omega (
  arith,
  insert_page-grows (page % 2 ^ 32) c,
  count_pages-grows left (page + 1) (insert_page (page % 2 ^ 32) c),
)

-- The figure that a number of pages is printed as.
abbrev pub figure : ℕ → ℕ
figure pages = pages * 4_096 / 1_048_576

figure_mono : (m n : ℕ) → m ≤ n → figure m ≤ figure n
figure_mono m n h = omega (arith, h)

module _ (S : System) (nb_allocation allocation_size_byte : ℤ) where
  abbrev Provisions : Type 0
  Provisions = Allocs S nb_allocation allocation_size_byte ℕ

  -- All figures so far are in order, and none exceeds that of the present set.
  abbrev pub IsGrowing : Provisions → Type 0
  IsGrowing a =
      (ascends a.out ≡ true) × (all_below (figure (length a.allocated_pages)) a.out ≡ true)

  go_on-none :
      (x : Option Text × Provisions) (rest : Provisions → Option Text × Provisions) (b : Provisions)
      → go_on S nb_allocation allocation_size_byte x rest ≡ (none, b)
      → (c : Provisions) × (x ≡ (none, c)) × (rest c ≡ (none, b))
  unfolding go_on
  go_on-none (some message, a) rest b e = absurd (cc)
  go_on-none (none, a) rest b e = (a, refl, e)

  -- A buffer prints nothing, and takes no page out of the set.
  with_buffer-grows :
      (i : ℕ) (buf : Result ℕ) (a b : Provisions)
      → with_buffer S nb_allocation allocation_size_byte i buf (λ new_pages c. (none, c)) a
        ≡ (none, b)
      → (b.out ≡ a.out) × (length a.allocated_pages ≤ length b.allocated_pages)
  unfolding with_buffer
  with_buffer-grows i (err code message) a b e = absurd (cc)
  with_buffer-grows i (ok address) a b e =
      let pages = buffer_pages S nb_allocation allocation_size_byte in
      let c : Counts = record { new_pages = 0; allocated_pages = a.allocated_pages } in
      let same = ap (λ r. r.1.out) e in
      let after = ap (λ r. length r.1.allocated_pages) e in
      (sym same, omega (arith, after, count_pages-grows pages (address / page_size) c))

  overprov_buffers-grows :
      (i left : ℕ) (a b : Provisions)
      → overprov_buffers S nb_allocation allocation_size_byte i left a ≡ (none, b)
      → (b.out ≡ a.out) × (length a.allocated_pages ≤ length b.allocated_pages)
  unfolding overprov_buffers overprov_buffer
  overprov_buffers-grows i zero a b e =
      (sym (ap (λ r. r.1.out) e), omega (arith, ap (λ r. length r.1.allocated_pages) e))
  overprov_buffers-grows i (suc left) a b e =
      let (buf, v) = S.allocate_buffer allocation_size_byte a.world in
      let (c, first, rest) =
        go_on-none
          (with_buffer S nb_allocation allocation_size_byte i buf (λ new_pages c. (none, c))
            (record a { world = v }))
          (overprov_buffers S nb_allocation allocation_size_byte i left) b e in
      let (same, more) = with_buffer-grows i buf (record a { world = v }) c first in
      let (same2, more2) = overprov_buffers-grows i left c b rest in
      (same2 ∙ same, omega (arith, more, more2))

  print_provision-IsGrowing :
      (a b : Provisions)
      → b.out ≡ a.out
      → length a.allocated_pages ≤ length b.allocated_pages
      → IsGrowing a
      → IsGrowing (print_provision S nb_allocation allocation_size_byte b)
  unfolding print_provision
  print_provision-IsGrowing a b same more (up, below) =
      let m = figure (length b.allocated_pages) in
      let under : all_below m b.out ≡ true = rw same (
        all_below_mono (figure (length a.allocated_pages)) m a.out
          (figure_mono (length a.allocated_pages) (length b.allocated_pages) more) below) in
      (ascends-snoc m b.out under (rw same up), all_below-snoc m b.out under)

  print_provision-length :
      (b : Provisions)
      → length (print_provision S nb_allocation allocation_size_byte b).out ≡ length b.out + 1
  unfolding print_provision
  print_provision-length b = length-append b.out (figure (length b.allocated_pages) ∷ [])

  overprov_repetitions-grows :
      (left i : ℕ) (a b : Provisions)
      → overprov_repetitions S nb_allocation allocation_size_byte left i a ≡ (none, b)
      → IsGrowing a
      → IsGrowing b × (length b.out ≡ length a.out + left)
  unfolding overprov_repetitions
  overprov_repetitions-grows zero i a b e g =
      (subst IsGrowing (ap (λ r. r.1) e) g, omega (arith, ap (λ r. length r.1.out) e))
  overprov_repetitions-grows (suc left) i a b e g =
      let (c, first, rest) =
        go_on-none
          (overprov_buffers S nb_allocation allocation_size_byte i
            (pos_part (nb_allocation +ℤ pos i)) a)
          _ b e in
      let (same, more) = overprov_buffers-grows i (pos_part (nb_allocation +ℤ pos i)) a c first in
      let printed = print_provision S nb_allocation allocation_size_byte c in
      let (g2, n) =
        overprov_repetitions-grows left (i + 1)
          (released S nb_allocation allocation_size_byte printed) b rest
          (print_provision-IsGrowing a c same more g) in
      (g2, omega (arith, n, print_provision-length c, ap length same))

  -- mem-alloc-overprov.cc prints one figure for each repetition, and they never go down: for a run that
  -- has printed nothing yet and in which no allocation fails, the figures printed are as many as
  -- NB_REPETITION and in ascending order.
  pub provision_ascends :
      (nb_repetition : ℤ) (a b : Allocs S nb_allocation allocation_size_byte ℕ)
      → a.out ≡ []
      → measure_overprov S nb_allocation allocation_size_byte nb_repetition a ≡ (none, b)
      → (ascends b.out ≡ true) × (length b.out ≡ pos_part nb_repetition)
  unfolding measure_overprov
  provision_ascends nb_repetition a b z e =
      let (g, n) =
        overprov_repetitions-grows (pos_part nb_repetition) 1 a b e (rw z refl, rw z refl) in
      (g.0, omega (arith, n, ap length z))
