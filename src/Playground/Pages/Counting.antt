-- ===== src/Playground/Pages/Counting.antt =====
-- Each page counts once (code/playground/mem-alloc-speed.cc).
use lab_cpp.Base.{
  ℕ, zero, suc, ◌+◌, ◌/◌, ◌%◌, ◌^◌, ◌≤◌, ◌<◌, ◌≡◌, refl, ap, ◌∙◌, Bool, false, ◌||◌, ◌&&◌, Option,
  none, some, List, [], ◌∷◌, ◌++◌, length, weigh, weigh-append, if◌then◌else◌, leb, ltb, ◌==◌,
  arith,
}
use lab_cpp.Base.Int.{ℤ, pos_part}
use lab_cpp.Base.Status.{Result, ok, err}
use lab_cpp.Base.Text.{Text}
use lab_cpp.Playground.Pages.{
  page_size, holds_page, Counts, insert_page, count_pages, System, Line, Allocs, buffer_pages,
  go_on, released, with_buffer, speed_line, speed_buffer, speed_buffers, speed_repetitions,
}

-- How often a page stands in the set.
abbrev pub occurrences : ℕ → List ℕ → ℕ
occurrences p pages = weigh (λ q. if p == q then 1 else 0) pages

absent-occurrences : (p : ℕ) (pages : List ℕ) → holds_page p pages ≡ false → occurrences p pages ≡ 0
absent-occurrences p [] h = refl
absent-occurrences p (q ∷ pages) h = ground (arith, absent-occurrences p pages)

pub insert_page-occurrences :
    (p q : ℕ) (c : Counts)
    → occurrences q c.allocated_pages ≤ 1
    → occurrences q (insert_page p c).allocated_pages ≤ 1
unfolding insert_page
insert_page-occurrences p q c h = ground (arith, absent-occurrences p c.allocated_pages)

pub count_pages-occurrences :
    (left page q : ℕ) (c : Counts)
    → occurrences q c.allocated_pages ≤ 1
    → occurrences q (count_pages left page c).allocated_pages ≤ 1
unfolding count_pages
count_pages-occurrences zero page q c h = h
count_pages-occurrences (suc left) page q c h =
    count_pages-occurrences left (page + 1) q (insert_page (page % 2 ^ 32) c)
      (insert_page-occurrences (page % 2 ^ 32) q c h)

-- The count grows as the set does.
insert_page-length :
    (p : ℕ) (c : Counts)
    → c.new_pages + 1 < 2 ^ 32
    → ((insert_page p c).new_pages + length c.allocated_pages
        ≡ c.new_pages + length (insert_page p c).allocated_pages)
      × ((insert_page p c).new_pages ≤ c.new_pages + 1)
unfolding insert_page
insert_page-length p c h = ground arith

pub count_pages-length :
    (left page : ℕ) (c : Counts)
    → c.new_pages + left < 2 ^ 32
    → (count_pages left page c).new_pages + length c.allocated_pages
      ≡ c.new_pages + length (count_pages left page c).allocated_pages
unfolding count_pages
count_pages-length zero page c h = refl
count_pages-length (suc left) page c h =
    let (e, l) = insert_page-length (page % 2 ^ 32) c (omega (arith, h)) in
    omega (
      arith,
      e,
      count_pages-length left (page + 1) (insert_page (page % 2 ^ 32) c) (omega (arith, h, l)),
    )

insert_page-holds :
    (p q : ℕ) (c : Counts)
    → holds_page q (insert_page p c).allocated_pages ≡ (holds_page q c.allocated_pages || q == p)
unfolding insert_page
insert_page-holds p q c = ground arith

-- Below address 2^44, the loop over the pages of a buffer adds to the set the pages from the first on,
-- as many as the buffer has, and no other: a page number is not cut.
pub count_pages-holds :
    (left page q : ℕ) (c : Counts)
    → page + left ≤ 2 ^ 32
    → holds_page q (count_pages left page c).allocated_pages
      ≡ (holds_page q c.allocated_pages || leb page q && ltb q (page + left))
unfolding count_pages
count_pages-holds zero page q c h = ground arith
count_pages-holds (suc left) page q c h = ground (
  arith,
  count_pages-holds left (page + 1) q (insert_page (page % 2 ^ 32) c),
  insert_page-holds (page % 2 ^ 32) q c,
)

-- Whether a page is one of a buffer at an address, with so many pages, and one of some buffers.
abbrev pub in_pages : (pages q address : ℕ) → Bool
in_pages pages q address = leb (address / 4_096) q && ltb q (address / 4_096 + pages)

unfoldable pub in_buffers : (pages q : ℕ) → List ℕ → Bool
in_buffers pages q [] = false
in_buffers pages q (address ∷ buffers) = in_pages pages q address || in_buffers pages q buffers

add_nil : (m n : ℕ) → m + (n + 0) ≡ m + n
add_nil m n = omega arith

abbrev pub printed : List Line → ℕ
printed out = weigh (λ line. line.new_pages_allocated) out

module _ (S : System) (nb_allocation allocation_size_byte : ℤ) where
  abbrev Speeds : Type 0
  Speeds = Allocs S nb_allocation allocation_size_byte Line

  abbrev pages : ℕ
  pages = buffer_pages S nb_allocation allocation_size_byte

  -- What is printed grows as the set, in which a page stands once.
  abbrev pub IsCounted : Speeds → Option Text × Speeds → Type 0
  IsCounted a (e, b) =
      (printed b.out + length a.allocated_pages ≡ printed a.out + length b.allocated_pages)
      × ((q : ℕ) → occurrences q a.allocated_pages ≤ 1 → occurrences q b.allocated_pages ≤ 1)

  go_on-IsCounted :
      (a : Speeds) (x : Option Text × Speeds) (rest : Speeds → Option Text × Speeds)
      → IsCounted a x
      → ((b : Speeds) → IsCounted b (rest b))
      → IsCounted a (go_on S nb_allocation allocation_size_byte x rest)
  unfolding go_on
  go_on-IsCounted a (some message, b) rest v f = v
  go_on-IsCounted a (none, b) rest (e, v) f = (omega (arith, e, (f b).0), λ q h. (f b).1 q (v q h))

  speed_line-printed :
      (i start_time new_pages : ℕ) (a : Speeds)
      → let b = (speed_line S nb_allocation allocation_size_byte i start_time new_pages a).1 in
        (printed b.out ≡ printed a.out + new_pages) × (b.allocated_pages ≡ a.allocated_pages)
  unfolding speed_line
  speed_line-printed i start_time new_pages a = (
    weigh-append (λ line. line.new_pages_allocated) a.out _ ∙ add_nil (printed a.out) new_pages,
    refl,
  )

  with_buffer-IsCounted :
      (i start_time : ℕ) (buf : Result ℕ) (a : Speeds)
      → pages < 2 ^ 32
      → IsCounted a (
          with_buffer S nb_allocation allocation_size_byte i buf
            (speed_line S nb_allocation allocation_size_byte i start_time)
            a)
  unfolding with_buffer
  with_buffer-IsCounted i start_time (err code message) a h = (refl, λ q l. l)
  with_buffer-IsCounted i start_time (ok address) a h =
      let c : Counts = record { new_pages = 0; allocated_pages = a.allocated_pages } in
      let d = count_pages pages (address / page_size) c in
      let b : Speeds = record a {
        world = S.memset address i allocation_size_byte a.world;
        allocated_pages = d.allocated_pages;
        buffers = a.buffers ++ address ∷ [];
      } in
      let (more, same) = speed_line-printed i start_time d.new_pages b in
      (
        omega (
          arith,
          more,
          ap length same,
          count_pages-length pages (address / page_size) c (omega (arith, h)),
        ),
        λ q l. rw same (count_pages-occurrences pages (address / page_size) q c l),
      )

  speed_buffers-IsCounted :
      (i left : ℕ) (a : Speeds)
      → pages < 2 ^ 32
      → IsCounted a (speed_buffers S nb_allocation allocation_size_byte i left a)
  unfolding speed_buffers speed_buffer
  speed_buffers-IsCounted i zero a h = (refl, λ q l. l)
  speed_buffers-IsCounted i (suc left) a h =
      let (start_time, w) = S.now a.world in
      let (buf, v) = S.allocate_buffer allocation_size_byte w in
      go_on-IsCounted a
        (with_buffer S nb_allocation allocation_size_byte i buf
          (speed_line S nb_allocation allocation_size_byte i start_time) (record a { world = v }))
        (speed_buffers S nb_allocation allocation_size_byte i left)
        (with_buffer-IsCounted i start_time buf (record a { world = v }) h)
        (λ b. speed_buffers-IsCounted i left b h)

  speed_repetitions-IsCounted :
      (left i : ℕ) (a : Speeds)
      → pages < 2 ^ 32
      → IsCounted a (speed_repetitions S nb_allocation allocation_size_byte left i a)
  unfolding speed_repetitions
  speed_repetitions-IsCounted zero i a h = (refl, λ q l. l)
  speed_repetitions-IsCounted (suc left) i a h =
      go_on-IsCounted a
        (speed_buffers S nb_allocation allocation_size_byte i (pos_part nb_allocation) a) _
        (speed_buffers-IsCounted i (pos_part nb_allocation) a h)
        (λ b.
          speed_repetitions-IsCounted left (i + 1) (released S nb_allocation allocation_size_byte b)
            h)

  -- A buffer's pages lie below the numbers that are cut.
  abbrev pub IsLow : ℕ → Type 0
  IsLow address = address / 4_096 + pages ≤ 2 ^ 32

  -- The set has the pages of `seen` and those of the buffers, and no others.
  abbrev pub HasPages : (ℕ → Bool) → Option Text × Speeds → Type 0
  HasPages seen (e, b) =
      (q : ℕ) → e ≡ none → holds_page q b.allocated_pages ≡ (seen q || in_buffers pages q b.buffers)
