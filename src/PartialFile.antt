-- ===== src/PartialFile.antt =====
-- code/util/partial-file.h and code/util/partial-file.cc: a file of which some chuncks are loaded.
pub mod Read
use lab_cpp.Base.{
  ℕ, Bool, true, false, ◌&&◌, List, [], ◌∷◌, ◌++◌, map, length, take, drop, if◌then◌else◌,
}
use lab_cpp.Base.Int.{ℤ, pos, pos_part, ◌+ℤ◌, ◌-ℤ◌, ltb_ℤ, leb_ℤ}
use lab_cpp.Base.Status.{Status, success, io_error, Result, ok, err}
use lab_cpp.Base.Text.{Text, codes}
use lab_cpp.Base.Decimal.{print_ℤ}

-- struct FileChunck; the buffer is its bytes.
pub record FileChunck : Type 0 where
  pub start_position : ℤ
  pub buffer : List ℕ

abbrev pub size_of : List ℕ → ℤ
size_of buffer = pos (length buffer)

-- arrow::Buffer(parent, offset, size): a view, which is not checked against its parent.
pub record View : Type 0 where
  pub parent : List ℕ
  pub offset : ℤ
  pub size : ℤ

-- The bytes of a view that lies within its parent.
unfoldable pub bytes : View → List ℕ
bytes view = take (pos_part view.size) (drop (pos_part view.offset) view.parent)

pub record PartialFile : Type 0 where
  pub chuncks : List FileChunck
  pub size : ℤ
  pub position : ℤ

-- What a read writes to std::cout, line by line, and what it returns.
pub record Reading : Type 0 where
  pub out : List Text
  pub result : Result View

unfoldable pub construct : List FileChunck → ℤ → PartialFile
construct chuncks size = record { chuncks = chuncks; size = size; position = pos 0 }

unfoldable pub get_size : PartialFile → Result ℤ
get_size file = ok file.size

-- `Close` empties the file, and ends without the status that it declares.
unfoldable pub close : PartialFile → PartialFile
close file = record file { chuncks = [] }

unfoldable pub closed : PartialFile → Bool
closed file = elim file.chuncks [ [] ↦ true | _ ∷ _ ↦ false ]

abbrev pub end_of : FileChunck → ℤ
end_of chunck = chunck.start_position +ℤ size_of chunck.buffer

unfoldable pub print_range : ℤ → ℤ → Text
print_range from to = print_ℤ from ++ codes "-" ++ print_ℤ to

-- `position >= start && position < start + size`
unfoldable pub holds : FileChunck → ℤ → Bool
holds chunck position = leb_ℤ chunck.start_position position && ltb_ℤ position (end_of chunck)

-- The body of the loop for the chunck that holds the position.
unfoldable pub read_chunck : FileChunck → ℤ → ℤ → Reading
read_chunck chunck position nbytes =
    if ltb_ℤ (end_of chunck) (position +ℤ nbytes)
    then record {
      out =
          (codes "read " ++ print_range position (position +ℤ nbytes))
          ∷ (codes "from " ++ print_range chunck.start_position (end_of chunck))
          ∷ [];
      result = err io_error (codes "chunck too small for read size");
    }
    else record {
      out = [];
      result = ok (record {
        parent = chunck.buffer;
        offset = position -ℤ chunck.start_position;
        size = nbytes;
      });
    }

-- The loop of `ReadAt`, with the reading that stands behind it.
unfoldable pub search_chuncks : List FileChunck → ℤ → ℤ → Reading → Reading
unfolding holds read_chunck
search_chuncks [] position nbytes missing = missing
search_chuncks (chunck ∷ rest) position nbytes missing =
    if holds chunck position
    then read_chunck chunck position nbytes
    else search_chuncks rest position nbytes missing

unfoldable pub read_at : PartialFile → ℤ → ℤ → Reading
unfolding search_chuncks
read_at file position nbytes = search_chuncks file.chuncks position nbytes (record {
  out =
      (codes "read " ++ print_range position (position +ℤ nbytes))
      ∷ codes "from :"
      ∷ map (λ c. codes "  " ++ print_range c.start_position (end_of c)) file.chuncks;
  result = err io_error (codes "chunck not in partial file");
})

unfoldable pub read_at_into : PartialFile → ℤ → ℤ → Result ℤ
read_at_into file position nbytes = err io_error (codes "ReadAt with void* out param not supported")

unfoldable pub tell : PartialFile → Result ℤ
tell file = ok file.position

unfoldable pub read_into : PartialFile → ℤ → Result ℤ
read_into file nbytes = err io_error (codes "Read with void* out param not supported")

-- `Read` moves the position whether or not it could read.
unfoldable pub read : ℤ → PartialFile → Reading × PartialFile
unfolding read_at
read nbytes file =
    (read_at file file.position nbytes, record file { position = file.position +ℤ nbytes })

unfoldable pub seek : ℤ → PartialFile → Status × PartialFile
seek position file = (success, record file { position = position })
