-- ===== src/Playground/Bandwidth/Counting.antt =====
-- What the handler of code/playground/query-bandwidth.cc has counted in the end.
use Prim.Native.Nat.{◌%◌, ◌^◌}
use native.Mathlib.Nat.{mod-add-mod}
use lab_cpp.Base.{ℕ, ◌+◌, ◌*◌, ◌≡◌, ap, some, List, [], ◌∷◌, length, weigh, ltb, map, arith}
use lab_cpp.Base.Status.{Result, ok}
use lab_cpp.Download.Fetch.{DownloadResponse}
use lab_cpp.Parquet.{ends}
use lab_cpp.Playground.Bandwidth.{
  Settings, Counted, count_results, count_batches, after_batch, int_width,
}
use lab_cpp.Base.{Bool-cases, inl, inr, ◌∙◌}

-- Responses that all hold `size` bytes.
abbrev pub AllSized : ℕ → List DownloadResponse → Type 0
AllSized size [] = Unit {0}
AllSized size (r ∷ rs) = (length r.raw_data ≡ size) × AllSized size rs

abbrev pub AllBatchesSized : ℕ → List (List DownloadResponse) → Type 0
AllBatchesSized size [] = Unit {0}
AllBatchesSized size (rs ∷ batches) = AllSized size rs × AllBatchesSized size batches

abbrev made : ℕ → ℕ → Counted
made n bytes = record { downloaded_chuncks = n; downloaded_bytes = bytes }

abbrev counted : ℕ → ℕ → Counted
counted size n = record { downloaded_chuncks = n; downloaded_bytes = (n * size) % int_width }

counted-step :
    (size n k : ℕ)
    → k ≡ size
    → made (n + 1) (((n * size) % int_width + k) % int_width) ≡ counted size (n + 1)
counted-step size n k e =
    ap (made (n + 1))
      (mod-add-mod (n * size) int_width k ∙ ap (λ b. b % int_width) (omega (arith, e)))

count_results-sized :
    (size n : ℕ) (rs : List DownloadResponse)
    → AllSized size rs
    → count_results (map ok rs) (counted size n) ≡ ends (counted size (n + length rs))
unfolding count_results
count_results-sized size n [] h = ap (λ m. ends (counted size m)) (omega arith)
count_results-sized size n (r ∷ rs) (e, h) =
    ap (count_results (map ok rs)) (counted-step size n (length r.raw_data) e)
    ∙ count_results-sized size (n + 1) rs h
    ∙ ap (λ m. ends (counted size m)) (omega arith)

abbrev all_batches : List (List DownloadResponse) → List (List (Result DownloadResponse))
all_batches = map (map ok)

count_batches-sized :
    (size nb n : ℕ) (batches : List (List DownloadResponse))
    → AllBatchesSized size batches
    → n + weigh length batches ≡ nb
    → count_batches nb (all_batches batches) (counted size n) ≡ some (ends (counted size nb))
unfolding count_batches after_batch
count_batches-sized size nb n [] h e = ground arith
count_batches-sized size nb n (rs ∷ batches) (a, h) e = elim (Bool-cases (ltb n nb)) [
  | inl l ↦
      rw (l, count_results-sized size n rs a, after_batch)
        (count_batches-sized size nb (n + length rs) batches h (omega (arith, e)))
  | inr l ↦ rw (l, after_batch) (ap (λ m. some (ends (counted size m))) (ground arith))
]

-- The handler counts all that it has asked for: if the calls of ProcessResponses return as many responses
-- as there are chuncks, in whatever batches, and each has the size of a chunck, the second loop ends
-- with that number, and with the bytes of all chuncks modulo 2 ^ 32.
pub bandwidth_counted :
    (s : Settings) (batches : List (List DownloadResponse))
    → AllBatchesSized s.chunk_size batches
    → weigh length batches ≡ s.nb_chunck
    → count_batches s.nb_chunck
        (map (map ok) batches)
        (record { downloaded_chuncks = 0; downloaded_bytes = 0 })
      ≡ some (
          ends (record {
            downloaded_chuncks = s.nb_chunck;
            downloaded_bytes = (s.nb_chunck * s.chunk_size) % 2 ^ 32;
          }))
bandwidth_counted s batches h e =
    let zero_bytes : 0 ≡ 0 * s.chunk_size % int_width = omega arith in
    ap (λ b. count_batches s.nb_chunck (all_batches batches) (made 0 b)) zero_bytes
    ∙ count_batches-sized s.chunk_size s.nb_chunck 0 batches h (omega (arith, e))
