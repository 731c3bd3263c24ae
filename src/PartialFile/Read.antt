-- ===== src/PartialFile/Read.antt =====
-- What `ReadAt` of code/util/partial-file.cc returns, against the file that the chuncks come from.
use lab_cpp.Base.{
  ℕ, ◌+◌, ◌-◌, ◌≤◌, ◌≡◌, ◌≢◌, refl, ap, ◌∙◌, true, false, Bool-cases, inl, inr, List, [], ◌∷◌, ◌++◌,
  length, take, drop, take-drop-take, drop-drop, arith, if◌then◌else◌,
}
use lab_cpp.Base.Int.{ℤ, pos, ltb_ℤ, ◌+ℤ◌, ◌-ℤ◌}
use lab_cpp.Base.Status.{io_error, ok, err}
use lab_cpp.Base.Text.{codes}
use lab_cpp.PartialFile.{
  FileChunck, View, bytes, PartialFile, Reading, end_of, holds, read_chunck, search_chuncks,
  read_at, read,
}

-- The chunck is the part of the file that begins at `from`.
pub record IsLoaded (file : List ℕ) (chunck : FileChunck) : Type 0 where
  pub from : ℕ
  pub start : chunck.start_position ≡ pos from
  pub part : chunck.buffer ≡ take (length chunck.buffer) (drop from file)

abbrev pub AllLoaded : List ℕ → List FileChunck → Type 0
AllLoaded file [] = Unit {0}
AllLoaded file (c ∷ cs) = IsLoaded file c × AllLoaded file cs

-- A window of a loaded chunck is a window of the file.
window :
    (file : List ℕ) (chunck : FileChunck) (l : IsLoaded file chunck) (p n : ℕ)
    → l.from ≤ p
    → p + n ≤ l.from + length chunck.buffer
    → take n (drop (p - l.from) chunck.buffer) ≡ take n (drop p file)
window file chunck l p n h k =
    ap (λ b. take n (drop (p - l.from) b)) l.part
    ∙ take-drop-take n (p - l.from) (length chunck.buffer) (drop l.from file) (omega arith)
    ∙ ap (take n) (drop-drop (p - l.from) l.from p file (omega arith))

read_chunck-bytes :
    (file : List ℕ) (chunck : FileChunck) (l : IsLoaded file chunck) (p n : ℕ) (view : View)
    → holds chunck (pos p) ≡ true
    → (read_chunck chunck (pos p) (pos n)).result ≡ ok view
    → bytes view ≡ take n (drop p file)
unfolding holds read_chunck bytes ◌+ℤ◌ ◌-ℤ◌
read_chunck-bytes file chunck l p n view h r = ground (arith, l.start, window file chunck l p n)

search_chuncks-bytes :
    (content : List ℕ) (cs : List FileChunck) (p n : ℕ) (missing : Reading) (view : View)
    → AllLoaded content cs
    → missing.result ≢ ok view
    → (search_chuncks cs (pos p) (pos n) missing).result ≡ ok view
    → bytes view ≡ take n (drop p content)
unfolding search_chuncks
search_chuncks-bytes content [] p n missing view l m r = absurd (m r)
search_chuncks-bytes content (c ∷ cs) p n missing view l m r = elim (Bool-cases (holds c (pos p))) [
  | inl h ↦ read_chunck-bytes content c l.0 p n view h (ground arith)
  | inr h ↦ search_chuncks-bytes content cs p n missing view l.1 m (ground arith)
]

-- If every chunck is a part of one file, then whatever `ReadAt` returns without an error is what
-- that file holds from the position on, as many bytes as were asked for.
pub read_at-bytes :
    (content : List ℕ) (file : PartialFile) (p n : ℕ) (view : View)
    → AllLoaded content file.chuncks
    → (read_at file (pos p) (pos n)).result ≡ ok view
    → bytes view ≡ take n (drop p content)
unfolding read_at
read_at-bytes content file p n view l r =
    search_chuncks-bytes content file.chuncks p n _ view l (λ e. cc) r

-- No chunck of the list holds the position.
abbrev pub NoneHolds : List FileChunck → ℤ → Type 0
NoneHolds [] position = Unit {0}
NoneHolds (c ∷ cs) position = (holds c position ≡ false) × NoneHolds cs position

search_chuncks-first :
    (before : List FileChunck) (c : FileChunck) (rest : List FileChunck) (position nbytes : ℤ)
    (missing : Reading)
    → NoneHolds before position
    → holds c position ≡ true
    → search_chuncks (before ++ c ∷ rest) position nbytes missing ≡ read_chunck c position nbytes
unfolding search_chuncks
search_chuncks-first [] c rest position nbytes missing none_before h = rw h
search_chuncks-first (b ∷ before) c rest position nbytes missing none_before h =
    rw none_before.0 (search_chuncks-first before c rest position nbytes missing none_before.1 h)

-- `ReadAt` decides by the first chunck that holds the position: it returns the view from there on
-- if the chunck reaches far enough, and an error if it does not, also when another chunck would.
pub read_at_first :
    (file : PartialFile) (before : List FileChunck) (c : FileChunck) (rest : List FileChunck)
    (position nbytes : ℤ)
    → file.chuncks ≡ before ++ c ∷ rest
    → NoneHolds before position
    → holds c position ≡ true
    → (read_at file position nbytes).result ≡ (
        if ltb_ℤ (end_of c) (position +ℤ nbytes)
        then err io_error (codes "chunck too small for read size")
        else ok
            (record { parent = c.buffer; offset = position -ℤ c.start_position; size = nbytes }))
unfolding read_at read_chunck
read_at_first file before c rest position nbytes e none_before h =
    rw (e, search_chuncks-first before c rest position nbytes _ none_before h) (ground arith)

search_chuncks-missing :
    (cs : List FileChunck) (position nbytes : ℤ) (missing : Reading)
    → NoneHolds cs position
    → search_chuncks cs position nbytes missing ≡ missing
unfolding search_chuncks
search_chuncks-missing [] position nbytes missing h = refl
search_chuncks-missing (c ∷ cs) position nbytes missing h =
    rw h.0 (search_chuncks-missing cs position nbytes missing h.1)

-- At a position that no chunck holds, `Read` returns an error and moves the position all the same.
pub read_missing :
    (file : PartialFile) (nbytes : ℤ)
    → NoneHolds file.chuncks file.position
    → ((read nbytes file).0.result ≡ err io_error (codes "chunck not in partial file"))
      × ((read nbytes file).1 ≡ record file { position = file.position +ℤ nbytes })
unfolding read read_at
read_missing file nbytes h =
    (rw (search_chuncks-missing file.chuncks file.position nbytes _ h) refl, refl)
