-- ===== src/Parquet/Files.antt =====
-- The files that GetColumnChunckFiles of code/aws/parquet-helpers.h makes of the responses.
use lab_cpp.Base.{
  ◌≡◌, refl, true, false, none, some, List, [], ◌∷◌, ◌++◌, arith, Bool-cases, inl, inr, ◌⊎◌, ap,
  sym, ◌∙◌, append_assoc,
}
use mathlib.Core.Path.{subst}
use lab_cpp.Base.Int.{ℤ}
use lab_cpp.Base.Text.{text_eq}
use lab_cpp.Base.Status.{Result, ok, err}
use lab_cpp.PartialFile
use lab_cpp.PartialFile.{PartialFile}
use lab_cpp.Download.Fetch.{S3Path, DownloadRequest, DownloadResponse, query_aborted}
use lab_cpp.Parquet.{
  ParquetColumnChunckIds, RgStartMap, find, emplace, ids_of, ColumnChunckMeta, chunck_request,
  download_column_chunck, ColChunckFile, ends, is_blank, zero_ids, touched, file_of, then_file,
  turn, get_column_chunck_files,
}
use lab_cpp.Parquet.Chuncks.{find-emplace_old, find-emplace_new}

-- A result that the loop can read: an aborted one, one of a connection that was opened ahead, or one
-- of a download with a start.
abbrev pub Readable : Result DownloadResponse → Type 0
Readable (err c message) = text_eq message query_aborted ≡ true
Readable (ok response) =
    (is_blank response.request ≡ true) ⊎ ((start : ℤ) × (response.request.range_start ≡ some start))

abbrev pub AllReadable : List (Result DownloadResponse) → Type 0
AllReadable [] = Unit {0}
AllReadable (r ∷ rs) = Readable r × AllReadable rs

abbrev pub Has {ℓ} : {A : Type ℓ} → A → List A → Type ℓ
Has {A = A} a xs = (before : List A) × (after : List A) × (xs ≡ before ++ a ∷ after)

-- The file of a response under given ids.
abbrev pub chunck_file : ParquetColumnChunckIds → ℤ → DownloadResponse → ColChunckFile
chunck_file ids start response = record {
  row_group = ids.row_group;
  column = ids.column;
  file =
      PartialFile.construct (record { start_position = start; buffer = response.raw_data } ∷ [])
        response.file_size;
}

ids_of-found :
    (r : DownloadRequest) (ids : ParquetColumnChunckIds) (m : RgStartMap)
    → find r m ≡ some ids
    → ids_of r m ≡ ids
unfolding ids_of
ids_of-found r ids m e = ground arith

file_of-found :
    (ids : ParquetColumnChunckIds) (start : ℤ) (m : RgStartMap) (response : DownloadResponse)
    → find response.request m ≡ some ids
    → file_of m start response ≡ chunck_file ids start response
unfolding file_of
file_of-found ids start m response f = rw (ids_of-found response.request ids m f) refl

turn-ends :
    (m : RgStartMap) (response : DownloadResponse) (files : List ColChunckFile) (last : RgStartMap)
    → Readable (ok response)
    → (more : List ColChunckFile) × (turn m response (ends (files, last))
        ≡ ends (more ++ files, last))
unfolding turn then_file
turn-ends m response files last (inl b) = ([], ground arith)
turn-ends m response files last (inr (start, e)) = elim (Bool-cases (is_blank response.request)) [
  | inl b ↦ ([], ground arith)
  | inr b ↦ (file_of m start response ∷ [], ground arith)
]

turn-file :
    (m : RgStartMap) (start : ℤ) (response : DownloadResponse) (files : List ColChunckFile)
    (last : RgStartMap)
    → response.request.range_start ≡ some start
    → is_blank response.request ≡ false
    → turn m response (ends (files, last)) ≡ ends (file_of m start response ∷ files, last)
unfolding turn then_file
turn-file m start response files last s b = ground arith

-- A turn keeps the ids that are there.
touched-old :
    (r : DownloadRequest) (ids : ParquetColumnChunckIds) (m : RgStartMap)
    (response : DownloadResponse)
    → find r m ≡ some ids
    → find r (touched m response) ≡ some ids
unfolding touched
touched-old r ids m response e =
    ground (arith, find-emplace_old r response.request zero_ids ids m e)

-- The loop ends with these files.
abbrev pub EndsWith : RgStartMap → List (Result DownloadResponse) → List ColChunckFile → Type 0
EndsWith m results files =
    (last : RgStartMap) × (get_column_chunck_files m results ≡ ends (files, last))

-- The loop ends on results that it can read.
files_end :
    (m : RgStartMap) (results : List (Result DownloadResponse))
    → AllReadable results
    → (files : List ColChunckFile) × EndsWith m results files
unfolding get_column_chunck_files
files_end m [] a = ([], (m, refl))
files_end m (err c message ∷ results) a =
    let (files, (last, e)) = files_end m results a.1 in (files, (last, ground (arith, a.0)))
files_end m (ok response ∷ results) a =
    let (files, (last, e)) = files_end (touched m response) results a.1 in
    let (more, t) = turn-ends m response files last a.0 in
    (more ++ files, (last, ap (turn m response) e ∙ t))

module _ (start : ℤ) (response : DownloadResponse) (ids : ParquetColumnChunckIds) where
  -- The file of a response whose request is in the map is among the files of any results that hold it.
  files-Has :
      (m : RgStartMap) (before after : List (Result DownloadResponse))
      → find response.request m ≡ some ids
      → response.request.range_start ≡ some start
      → is_blank response.request ≡ false
      → AllReadable (before ++ ok response ∷ after)
      → (files : List ColChunckFile) × EndsWith m (before ++ ok response ∷ after) files
        × Has (chunck_file ids start response) files
  unfolding get_column_chunck_files
  files-Has m [] after f s b a =
      let (files, (last, e)) = files_end (touched m response) after a.1 in
      (
        chunck_file ids start response ∷ files,
        (
          last,
          ap (turn m response) e
              ∙ turn-file m start response files last s b
              ∙ ap (λ g. ends (g ∷ files, last)) (file_of-found ids start m response f),
        ),
        ([], files, refl),
      )
  files-Has m (err c message ∷ before) after f s b a =
      let (files, (last, e), h) = files-Has m before after f s b a.1 in
      (files, (last, ground (arith, a.0)), h)
  files-Has m (ok other ∷ before) after f s b a =
      let (files, (last, e), (xs, ys, h)) =
        files-Has (touched m other) before after (touched-old response.request ids m other f) s b
          a.1 in
      let (more, t) = turn-ends m other files last a.0 in
      (
        more ++ files,
        (last, ap (turn m other) e ∙ t),
        (
          more ++ xs,
          ys,
          ap (λ fs. more ++ fs) h
              ∙ sym (append_assoc more xs (chunck_file ids start response ∷ ys)),
        ),
      )

-- A column chunck with its place in the file, its path and its ids.
pub record Chunck : Type 0 where
  pub meta : ColumnChunckMeta
  pub path : S3Path
  pub ids : ParquetColumnChunckIds

-- DownloadColumnChunck, called for one chunck after another.
unfoldable pub download_column_chuncks : List Chunck → RgStartMap → RgStartMap
unfolding download_column_chunck
download_column_chuncks [] m = m
download_column_chuncks (c ∷ cs) m =
    download_column_chuncks cs (download_column_chunck c.meta c.path c.ids m).1

ids-kept :
    (r : DownloadRequest) (ids : ParquetColumnChunckIds) (cs : List Chunck) (m : RgStartMap)
    → find r m ≡ some ids
    → find r (download_column_chuncks cs m) ≡ some ids
unfolding download_column_chuncks download_column_chunck
ids-kept r ids [] m e = e
ids-kept r ids (c ∷ cs) m e =
    ids-kept r ids cs (emplace (chunck_request c.meta c.path) c.ids m)
      (find-emplace_old r (chunck_request c.meta c.path) c.ids ids m e)

download-found :
    (c : Chunck) (m : RgStartMap) (later : List Chunck)
    → find (chunck_request c.meta c.path) m ≡ none
    → find (chunck_request c.meta c.path) (download_column_chuncks (c ∷ later) m) ≡ some c.ids
unfolding download_column_chuncks download_column_chunck
download-found c m later fresh =
    ids-kept (chunck_request c.meta c.path) c.ids later
      (emplace (chunck_request c.meta c.path) c.ids m)
      (find-emplace_new (chunck_request c.meta c.path) c.ids m fresh)

chunck_request-start :
    (meta : ColumnChunckMeta) (path : S3Path)
    → (chunck_request meta path).range_start ≡ some meta.file_offset
unfolding chunck_request
chunck_request-start meta path = refl

-- Every column chunck comes back under its own ids: if the map has no entry for its request when it is
-- scheduled, then, whatever is scheduled after it, and among whatever other results that the loop can
-- read its response arrives, GetColumnChunckFiles ends, and one of its files has the chunck's row group
-- and column, and is the partial file of the response's bytes at the chunck's offset.
pub column_chunck_files :
    (c : Chunck) (m : RgStartMap) (later : List Chunck) (response : DownloadResponse)
    (before after : List (Result DownloadResponse))
    → find (chunck_request c.meta c.path) m ≡ none
    → response.request ≡ chunck_request c.meta c.path
    → is_blank response.request ≡ false
    → AllReadable (before ++ ok response ∷ after)
    → (files : List ColChunckFile) × EndsWith
        (download_column_chuncks (c ∷ later) m)
        (before ++ ok response ∷ after)
        files
      × Has (chunck_file c.ids c.meta.file_offset response) files
column_chunck_files c m later response before after fresh answers real readable =
    files-Has c.meta.file_offset response c.ids (download_column_chuncks (c ∷ later) m) before after
      (subst (λ r. find r (download_column_chuncks (c ∷ later) m) ≡ some c.ids) (sym answers)
        (download-found c m later fresh))
      (ap (λ r. r.range_start) answers ∙ chunck_request-start c.meta c.path) real readable
