-- ===== src/Parquet/Hash.antt =====
-- The hash of `rg_start_map` in code/aws/parquet-helpers.h, which an unordered map reads with RequestEqual.
use lab_cpp.Base.{ℕ, ◌-◌, ◌%◌, ◌^◌, ◌≡◌, ap, Bool, true, ◌&&◌, arith}
use lab_cpp.Base.Int.{ℤ, pos, negsuc, eqb_ℤ, eq_of_parts}
use lab_cpp.Download.Fetch.{DownloadRequest}
use lab_cpp.Parquet.{request_equal}

-- The conversion of an int64_t to int, by the residue that it keeps.
abbrev pub int_residue : ℤ → ℕ
int_residue (pos n) = n % 2 ^ 32
int_residue (negsuc n) = 2 ^ 32 - 1 - n % 2 ^ 32

-- struct RequestWeakHash; `hash_int` is that of std::hash<int>.
unfoldable pub request_weak_hash : (hash_int : ℕ → ℕ) → DownloadRequest → ℕ
request_weak_hash hash_int a = hash_int (int_residue a.range_end)

eqb_ℤ-eq : (a b : ℤ) → eqb_ℤ a b ≡ true → a ≡ b
eqb_ℤ-eq a b h = eq_of_parts a b (ground arith)

and_right : (x y : Bool) → (x && y) ≡ true → y ≡ true
and_right x y e = ground arith

-- Requests that are equal for the map have equal hashes, whatever the hash of an int.
pub request_weak_hash-equal :
    (hash_int : ℕ → ℕ) (a b : DownloadRequest)
    → request_equal a b ≡ true
    → request_weak_hash hash_int a ≡ request_weak_hash hash_int b
unfolding request_weak_hash request_equal
request_weak_hash-equal hash_int a b e =
    ap (λ r. hash_int (int_residue r)) (eqb_ℤ-eq a.range_end b.range_end (and_right _ _ e))
