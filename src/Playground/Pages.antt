-- ===== src/Playground/Pages.antt =====
-- code/playground/mem-alloc-speed.cc and mem-alloc-overprov.cc: buffers are taken from arrow's default
-- pool, written to, and given back after each repetition, and the pages are counted that no buffer has
-- had before. The pool, memset and the clock are parameters, over a world of their own; a buffer is
-- known by its address.
pub mod Counting
pub mod Provision
use lab_cpp.Base.{
  ℕ, zero, suc, ◌+◌, ◌*◌, ◌/◌, ◌%◌, ◌^◌, Bool, true, false, ◌||◌, Option, none, some, List, [], ◌∷◌,
  ◌++◌, length, if◌then◌else◌, ◌==◌,
}
use lab_cpp.Base.Int.{ℤ, pos, pos_part, ◌+ℤ◌}
use lab_cpp.Base.Status.{Result, ok, err}
use lab_cpp.Base.Text.{Text}
use lab_cpp.Toolbox.{get_duration_micro}

abbrev pub page_size : ℕ
page_size = 4_096

abbrev pub holds_page : ℕ → List ℕ → Bool
holds_page p [] = false
holds_page p (q ∷ pages) = p == q || holds_page p pages

-- `new_pages_allocated` and `allocated_pages`; the order of the set is of no account.
pub record Counts : Type 0 where
  pub new_pages : ℕ
  pub allocated_pages : List ℕ

-- `insert(...).second`, and the count, which is a uint32_t.
unfoldable pub insert_page : ℕ → Counts → Counts
insert_page p c =
    if holds_page p c.allocated_pages
    then c
    else record { new_pages = (c.new_pages + 1) % 2 ^ 32; allocated_pages = p ∷ c.allocated_pages }

-- The loop over a buffer's pages, whose numbers are cut to a uint32_t.
unfoldable pub count_pages : (left page : ℕ) → Counts → Counts
unfolding insert_page
count_pages zero page c = c
count_pages (suc left) page c = count_pages left (page + 1) (insert_page (page % 2 ^ 32) c)

pub record System : Type 1 where
  pub World : Type 0
  pub allocate_buffer : ℤ → World → Result ℕ × World
  pub memset : (address value : ℕ) → ℤ → World → World
  pub release : List ℕ → World → World
  pub now : World → ℕ × World

-- What mem-alloc-speed.cc prints of a buffer.
pub record Line : Type 0 where
  pub iteration : ℕ
  pub allocation_duration : ℤ
  pub new_pages_allocated : ℕ

module _ (S : System) (nb_allocation allocation_size_byte : ℤ) where
  -- `Out` is what the program prints.
  pub record Allocs (Out : Type 0) : Type 0 where
    pub world : S.World
    pub allocated_pages : List ℕ
    pub buffers : List ℕ
    pub out : List Out

  abbrev pub buffer_pages : ℕ
  buffer_pages = pos_part allocation_size_byte / page_size

  module _ {Out : Type 0} where
    -- The exception of PARQUET_ASSIGN_OR_THROW ends the handler, and the buffers are given back.
    unfoldable pub go_on :
        Option Text × Allocs Out
        → (Allocs Out → Option Text × Allocs Out)
        → Option Text × Allocs Out
    go_on (some message, a) rest = (some message, a)
    go_on (none, a) rest = rest a

    abbrev pub released : Allocs Out → Allocs Out
    released a = record a { world = S.release a.buffers a.world; buffers = [] }

    -- From the allocation of a buffer to the count of its pages; `print` is what follows.
    unfoldable pub with_buffer :
        ℕ
        → Result ℕ
        → (new_pages : ℕ → Allocs Out → Option Text × Allocs Out) → Allocs Out
        → Option Text × Allocs Out
    unfolding count_pages
    with_buffer i (err code message) print a = (some message, released a)
    with_buffer i (ok address) print a =
        let c =
          count_pages buffer_pages (address / page_size)
            (record { new_pages = 0; allocated_pages = a.allocated_pages }) in
        print c.new_pages (record a {
          world = S.memset address i allocation_size_byte a.world;
          allocated_pages = c.allocated_pages;
          buffers = a.buffers ++ address ∷ [];
        })

  -- mem-alloc-speed.cc
  unfoldable pub speed_line : ℕ → (start_time : ℕ) → ℕ → Allocs Line → Option Text × Allocs Line
  unfolding get_duration_micro
  speed_line i start_time new_pages a =
      let (end_time, w) = S.now a.world in
      (
        none,
        record a {
          world = w;
          out =
              a.out
              ++ record {
                iteration = i;
                allocation_duration = get_duration_micro start_time end_time;
                new_pages_allocated = new_pages;
              }
                ∷ [];
        },
      )

  unfoldable pub speed_buffer : ℕ → Allocs Line → Option Text × Allocs Line
  unfolding with_buffer speed_line
  speed_buffer i a =
      let (start_time, w) = S.now a.world in
      let (buf, v) = S.allocate_buffer allocation_size_byte w in
      with_buffer i buf (speed_line i start_time) (record a { world = v })

  unfoldable pub speed_buffers : ℕ → (left : ℕ) → Allocs Line → Option Text × Allocs Line
  unfolding speed_buffer go_on
  speed_buffers i zero a = (none, a)
  speed_buffers i (suc left) a = go_on (speed_buffer i a) (speed_buffers i left)

  unfoldable pub speed_repetitions : (left i : ℕ) → Allocs Line → Option Text × Allocs Line
  unfolding speed_buffers go_on
  speed_repetitions zero i a = (none, a)
  speed_repetitions (suc left) i a =
      go_on (speed_buffers i (pos_part nb_allocation) a)
        (λ b. speed_repetitions left (i + 1) (released b))

  -- `my_handler`, with NB_REPETITION rounds.
  unfoldable pub measure_speed : Allocs Line → Option Text × Allocs Line
  unfolding speed_repetitions
  measure_speed a = speed_repetitions 2 1 a

  -- mem-alloc-overprov.cc
  unfoldable pub overprov_buffer : ℕ → Allocs ℕ → Option Text × Allocs ℕ
  unfolding with_buffer
  overprov_buffer i a =
      let (buf, v) = S.allocate_buffer allocation_size_byte a.world in
      with_buffer i buf (λ new_pages b. (none, b)) (record a { world = v })

  unfoldable pub overprov_buffers : ℕ → (left : ℕ) → Allocs ℕ → Option Text × Allocs ℕ
  unfolding overprov_buffer go_on
  overprov_buffers i zero a = (none, a)
  overprov_buffers i (suc left) a = go_on (overprov_buffer i a) (overprov_buffers i left)

  -- The end of a repetition: the MiB of all pages counted so far.
  unfoldable pub print_provision : Allocs ℕ → Allocs ℕ
  print_provision b = record b {
    out = b.out ++ length b.allocated_pages * page_size / 1_048_576 ∷ [];
  }

  unfoldable pub overprov_repetitions : (left i : ℕ) → Allocs ℕ → Option Text × Allocs ℕ
  unfolding overprov_buffers print_provision go_on
  overprov_repetitions zero i a = (none, a)
  overprov_repetitions (suc left) i a =
      go_on (overprov_buffers i (pos_part (nb_allocation +ℤ pos i)) a)
        (λ b. overprov_repetitions left (i + 1) (released (print_provision b)))

  -- `my_handler`, with NB_REPETITION rounds.
  unfoldable pub measure_overprov : ℤ → Allocs ℕ → Option Text × Allocs ℕ
  unfolding overprov_repetitions
  measure_overprov nb_repetition a = overprov_repetitions (pos_part nb_repetition) 1 a
