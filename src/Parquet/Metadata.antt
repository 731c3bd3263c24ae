-- ===== src/Parquet/Metadata.antt =====
-- GetMetadata of code/aws/parquet-helpers.h: its calls of the Downloader, and the loop that waits for
-- the footer. What the parquet library reads from the footer's file is a parameter.
use lab_cpp.Base.{
  ℕ, ◌≡◌, refl, Bool, true, false, Option, none, some, List, [], ◌∷◌, ◌++◌, map, if◌then◌else◌,
}
use lab_cpp.Base.Int.{pos, eqb_ℤ}
use lab_cpp.Base.Text.{Text}
use lab_cpp.Base.Status.{Result, ok}
use lab_cpp.PartialFile.{PartialFile}
use lab_cpp.Download.Fetch.{S3Path, DownloadRequest, DownloadResponse}
use lab_cpp.Parquet.{
  Ending, ends, dies, bad_optional_access, is_blank, find_footer, footer_request, footer_file,
}

-- The calls of the Downloader before the loop, in their order.
pub data Call : Type 0 where
  schedule_download : DownloadRequest → Call
  init_connections : (bucket : Text) (nb_init : ℕ) → Call

unfoldable pub metadata_calls : S3Path → ℕ → List Call
unfolding footer_request
metadata_calls path nb_init =
    schedule_download (footer_request path) ∷ init_connections path.bucket nb_init ∷ []

-- `footer_response{{}, nullptr, 0}`
abbrev pub no_footer : DownloadResponse
no_footer = record {
  request = record {
    range_start = none;
    range_end = pos 0;
    path = record { bucket = []; key = [] };
  };
  raw_data = [];
  file_size = pos 0;
}

-- A turn of the loop: its test, and what the inner loop has come to.
unfoldable pub after_results :
    Bool
    → DownloadResponse
    → Ending DownloadResponse
    → (DownloadResponse → Option (Ending DownloadResponse))
    → Option (Ending DownloadResponse)
after_results false footer inner loop = some (ends footer)
after_results true footer (ends found) loop = loop found
after_results true footer (dies message) loop = some (dies message)
after_results true footer bad_optional_access loop = some bad_optional_access

-- The loop, over what the successive calls of ProcessResponses return. Where they are used up and
-- there is no footer, the thread is blocked in `wait`.
unfoldable pub wait_footer :
    List (List (Result DownloadResponse)) → DownloadResponse → Option (Ending DownloadResponse)
unfolding find_footer after_results
wait_footer [] footer = if eqb_ℤ footer.file_size (pos 0) then none else some (ends footer)
wait_footer (results ∷ batches) footer =
    after_results (eqb_ℤ footer.file_size (pos 0)) footer (find_footer results footer)
      (wait_footer batches)

-- What the library makes of the file that holds the footer.
unfoldable pub opened :
    {Metadata : Type 0} → (PartialFile → Metadata) → Ending DownloadResponse → Ending Metadata
unfolding footer_file
opened read (ends footer) = ends (read (footer_file footer))
opened read (dies message) = dies message
opened read bad_optional_access = bad_optional_access

unfoldable pub get_metadata :
    {Metadata : Type 0}
    → (PartialFile → Metadata)
    → List (List (Result DownloadResponse))
    → Option (Ending Metadata)
unfolding wait_footer opened
get_metadata read batches = elim (wait_footer batches no_footer) [
  | none ↦ none
  | some e ↦ some (opened read e)
]

-- Responses of initialised connections, which are no downloads.
abbrev pub AllBlank : List DownloadResponse → Type 0
AllBlank [] = Unit {0}
AllBlank (r ∷ rs) = (is_blank r.request ≡ true) × AllBlank rs

abbrev pub AllBatchesBlank : List (List DownloadResponse) → Type 0
AllBatchesBlank [] = Unit {0}
AllBatchesBlank (rs ∷ batches) = AllBlank rs × AllBatchesBlank batches

find_footer-blank :
    (rs : List DownloadResponse) (footer : DownloadResponse)
    → AllBlank rs
    → find_footer (map ok rs) footer ≡ ends footer
unfolding find_footer
find_footer-blank [] footer h = refl
find_footer-blank (r ∷ rs) footer (b, h) = rw (b, find_footer) (find_footer-blank rs footer h)

find_footer-found :
    (before after : List DownloadResponse) (footer old : DownloadResponse)
    → AllBlank before
    → AllBlank after
    → is_blank footer.request ≡ false
    → find_footer (map ok (before ++ footer ∷ after)) old ≡ ends footer
unfolding find_footer
find_footer-found [] after footer old h k f = rw (f, find_footer) (find_footer-blank after footer k)
find_footer-found (r ∷ before) after footer old (b, h) k f =
    rw (b, find_footer) (find_footer-found before after footer old h k f)

wait_footer-ready :
    (batches : List (List (Result DownloadResponse))) (footer : DownloadResponse)
    → eqb_ℤ footer.file_size (pos 0) ≡ false
    → wait_footer batches footer ≡ some (ends footer)
unfolding wait_footer after_results
wait_footer-ready [] footer e = rw e refl
wait_footer-ready (results ∷ batches) footer e = rw (e, after_results) refl

wait_footer-found :
    (early : List (List DownloadResponse)) (before after : List DownloadResponse)
    (footer : DownloadResponse) (later : List (List (Result DownloadResponse)))
    → AllBatchesBlank early
    → AllBlank before
    → AllBlank after
    → is_blank footer.request ≡ false
    → eqb_ℤ footer.file_size (pos 0) ≡ false
    → wait_footer (map (map ok) early ++ map ok (before ++ footer ∷ after) ∷ later) no_footer
      ≡ some (ends footer)
unfolding wait_footer after_results
wait_footer-found [] before after footer later e h k f s =
    rw (find_footer-found before after footer no_footer h k f, after_results)
      (wait_footer-ready later footer s)
wait_footer-found (rs ∷ early) before after footer later (b, e) h k f s =
    rw (find_footer-blank rs no_footer b, after_results)
      (wait_footer-found early before after footer later e h k f s)

-- GetMetadata finds the footer whatever the order of the responses: if calls of ProcessResponses return
-- only responses of connections until one returns the response of the footer, among more of these,
-- and the file is not empty, then the loop ends there, whatever comes later, and the library is
-- given the file of that response.
pub metadata_found :
    {Metadata : Type 0} (read : PartialFile → Metadata) (early : List (List DownloadResponse))
    (before after : List DownloadResponse) (footer : DownloadResponse)
    (later : List (List (Result DownloadResponse)))
    → AllBatchesBlank early
    → AllBlank before
    → AllBlank after
    → is_blank footer.request ≡ false
    → eqb_ℤ footer.file_size (pos 0) ≡ false
    → get_metadata read (map (map ok) early ++ map ok (before ++ footer ∷ after) ∷ later)
      ≡ some (ends (read (footer_file footer)))
unfolding get_metadata opened
metadata_found read early before after footer later e h k f s =
    rw (wait_footer-found early before after footer later e h k f s, get_metadata) refl
