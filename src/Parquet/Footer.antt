-- ===== src/Parquet/Footer.antt =====
-- What GetMetadata of code/aws/parquet-helpers.h can read from the partial file of the footer.
use lab_cpp.Base.{
  ℕ, zero, suc, ◌-◌, ◌≤◌, ◌<◌, ◌≡◌, refl, List, [], ◌∷◌, length, take, drop, arith, length-drop,
  drop-drop, ap, ◌∙◌,
}
use lab_cpp.Base.Int.{pos, ◌+ℤ◌, ◌-ℤ◌}
use lab_cpp.Base.Status.{ok}
use lab_cpp.PartialFile.{View, bytes, construct, read_at, search_chuncks, read_chunck, holds}
use lab_cpp.Download.Fetch.{DownloadResponse}
use lab_cpp.Parquet.{footer_file}

take-all : {A : Type 0} (n : ℕ) (xs : List A) → length xs ≤ n → take n xs ≡ xs
take-all zero [] h = refl
take-all zero (x ∷ xs) h = absurd (ground arith)
take-all (suc n) [] h = refl
take-all (suc n) (x ∷ xs) h = ap (λ ys. x ∷ ys) (take-all n xs (ground arith))

-- The positions of the tail, in numbers.
footer-tail_view :
    (content : List ℕ) (e n : ℕ) (response : DownloadResponse)
    → e ≤ length content
    → 0 < n
    → n ≤ e
    → response.request.range_end ≡ pos e
    → response.file_size ≡ pos (length content)
    → response.raw_data ≡ drop (length content - e) content
    → (read_at (footer_file response) (pos (length content - n)) (pos n)).result
      ≡ ok (record { parent = response.raw_data; offset = pos (e - n); size = pos n })
unfolding footer_file construct read_at search_chuncks read_chunck holds ◌-ℤ◌ ◌+ℤ◌
footer-tail_view content e n response h1 h2 h3 he hs hr =
    ground (arith, length-drop (length content - e) content)

-- The tail of a Parquet file can be read from the partial file of its footer: if the response for
-- the last `e` bytes, of a file that has as many, holds them and gives the file's size, then each read
-- of the last `n` of them, at least one, at their place in the whole file succeeds and gives these
-- bytes.
pub footer-tail :
    (content : List ℕ) (e n : ℕ) (response : DownloadResponse)
    → e ≤ length content
    → 0 < n
    → n ≤ e
    → response.request.range_end ≡ pos e
    → response.file_size ≡ pos (length content)
    → response.raw_data ≡ drop (length content - e) content
    → (view : View) × ((read_at (footer_file response) (pos (length content - n)) (pos n)).result
        ≡ ok view)
      × (bytes view ≡ drop (length content - n) content)
unfolding bytes
footer-tail content e n response h1 h2 h3 he hs hr = (
  record { parent = response.raw_data; offset = pos (e - n); size = pos n },
  footer-tail_view content e n response h1 h2 h3 he hs hr,
  ap (λ b. take n (drop (e - n) b)) hr
      ∙ ap (take n)
          (drop-drop (e - n) (length content - e) (length content - n) content (omega arith))
      ∙ take-all n (drop (length content - n) content)
          (omega (arith, length-drop (length content - n) content)),
)
