-- ===== src/Curl/Handles/Conservation.antt =====
-- Where the handles of code/aws/curl/HandleContainer.cpp are.
use lab_cpp.Base.{
  ℕ, ◌+◌, ◌≡◌, refl, Bool, true, false, Option, none, some, List, [], ◌∷◌, if◌then◌else◌, ◌==◌,
  weigh, arith, Option-cases, inl, inr,
}
use lab_cpp.Base.Text.{Text, text_eq, text_eq_of, text_eq_refl}
use lab_cpp.Base.Key.{text_key}
use lab_cpp.Base.StdMap.{find, set}
use lab_cpp.Base.StdMap.Laws.{find-set}
use lab_cpp.Curl.Handles.{
  DomainHandles, fresh_item, Cache, Acquired, take_handle, acquire, release, release_curl_handle,
  Pool, initial, lend, same_loan, end_loan, Action, acquire_for, release_for, destroy_for, next,
  Reach, begin, later,
}

abbrev pub once : Bool → ℕ
once true = 1
once false = 0

-- How often a list names a handle under a domain.
abbrev pub loans : Text → ℕ → List (Text × ℕ) → ℕ
loans domain h = weigh (λ l. once (same_loan domain h l))

abbrev pub kept : ℕ → Option DomainHandles → ℕ
kept h none = 0
kept h (some item) = weigh (λ k. once (k == h)) item.handles

-- How often the cache holds a handle for a domain.
abbrev pub cached : Text → ℕ → Cache → ℕ
cached domain h cache = kept h (find domain cache)

module _ (domain : Text) (h : ℕ) where
  -- How many handles of this name the answer of `acquire` adds to those that are lent, and how many
  -- of them curl has opened.
  abbrev given : Text → Acquired → ℕ
  given d got = elim got.handle [ none ↦ 0 | some k ↦ once (same_loan domain h (d, k)) ]

  abbrev made : Text → Acquired → ℕ
  made d got = if got.reused then 0 else given d got

  cached-set :
      (d : Text) (item : DomainHandles) (cache : Cache)
      → cached domain h (set d item cache)
        ≡ (if text_eq d domain then kept h (some item) else cached domain h cache)
  cached-set d item cache = rw (find-set domain d item cache) (refl-if d item cache)
    where
      refl-if :
          (d : Text) (item : DomainHandles) (cache : Cache)
          → kept h (if text_eq d domain then some item else find domain cache)
            ≡ (if text_eq d domain then kept h (some item) else cached domain h cache)
      refl-if d item cache = ground arith

  take_handle-cached :
      (new : Option ℕ) (d : Text) (hs : List ℕ) (sh : Option ℕ) (cache : Cache)
      → find d cache ≡ some (record { handles = hs; share = sh })
      → cached domain h (take_handle new d (record { handles = hs; share = sh }) cache).cache
          + given d (take_handle new d (record { handles = hs; share = sh }) cache)
        ≡ cached domain h cache
          + made d (take_handle new d (record { handles = hs; share = sh }) cache)
  unfolding take_handle
  take_handle-cached new d [] sh cache e = refl
  take_handle-cached new d (k ∷ ks) sh cache e =
      ground (arith, cached-set d (record { handles = ks; share = sh }) cache, text_eq_of d domain)

  found-fresh :
      (d : Text) (sh : Option ℕ) (cache : Cache)
      → find d (set d (fresh_item sh) cache) ≡ some (fresh_item sh)
  found-fresh d sh cache = ground (arith, find-set d d (fresh_item sh) cache, text_eq_refl d)

  acquire-cached :
      (new sh : Option ℕ) (d : Text) (cache : Cache)
      → cached domain h (acquire new sh d cache).cache + given d (acquire new sh d cache)
        ≡ cached domain h cache + made d (acquire new sh d cache)
  unfolding acquire
  acquire-cached new sh d cache = elim (Option-cases (find d cache)) [
    | inr (item, e) ↦ rw (e, acquire) (take_handle-cached new d item.handles item.share cache e)
    | inl e ↦
        rw (e, acquire)
          (ground (
            arith,
            take_handle-cached new d [] sh (set d (fresh_item sh) cache) (found-fresh d sh cache),
            cached-set d (fresh_item sh) cache,
            text_eq_of d domain,
          ))
  ]

  release-cached :
      (d : Text) (k : ℕ) (cache : Cache)
      → cached domain h (release_curl_handle d (some k) cache)
        ≡ cached domain h cache + once (same_loan domain h (d, k))
  unfolding release_curl_handle release
  release-cached d k cache = elim (Option-cases (find d cache)) [
    | inr (item, e) ↦ ground (
      arith,
      cached-set d (record { handles = k ∷ item.handles; share = item.share }) cache,
      text_eq_of d domain,
    )
    | inl e ↦
        ground (
          arith,
          cached-set d (record { handles = k ∷ []; share = none }) cache,
          text_eq_of d domain,
        )
  ]

  end_loan-loans :
      (d : Text) (k : ℕ) (ls left : List (Text × ℕ))
      → end_loan d k ls ≡ some left
      → loans domain h ls ≡ loans domain h left + once (same_loan domain h (d, k))
  unfolding end_loan
  end_loan-loans d k [] left e = cc
  end_loan-loans d k ((d', k') ∷ ls) left e = elim (Option-cases (end_loan d k ls)) [
    | inl n ↦ ground (arith, text_eq_of d' d)
    | inr (rest, r) ↦ ground (arith, end_loan-loans d k ls rest r, text_eq_of d' d)
  ]

  -- The account of one pair of a domain and a handle.
  abbrev Accounted : Pool → Type 0
  Accounted p =
      loans domain h p.opened
      ≡ cached domain h p.cache + loans domain h p.borrowed + loans domain h p.destroyed

  lend-Accounted :
      (d : Text) (got : Acquired) (p : Pool)
      → cached domain h got.cache + given d got ≡ cached domain h p.cache + made d got
      → Accounted p
      → Accounted (lend d got p)
  unfolding lend
  lend-Accounted d got p e v = elim (Option-cases got.handle) [
    | inl n ↦ ground arith
    | inr (k, s) ↦ ground arith
  ]

  next-Accounted : (a : Action) (p q : Pool) → next a p ≡ some q → Accounted p → Accounted q
  unfolding next
  next-Accounted (acquire_for new sh d) p q s v =
      ground
        (arith, lend-Accounted d (acquire new sh d p.cache) p (acquire-cached new sh d p.cache) v)
  next-Accounted (release_for d k) p q s v = elim (Option-cases (end_loan d k p.borrowed)) [
    | inl n ↦ cc
    | inr (left, e) ↦
        ground (arith, end_loan-loans d k p.borrowed left e, release-cached d k p.cache)
  ]
  next-Accounted (destroy_for d k) p q s v = elim (Option-cases (end_loan d k p.borrowed)) [
    | inl n ↦ cc
    | inr (left, e) ↦ ground (arith, end_loan-loans d k p.borrowed left e)
  ]

-- No handle is lost or changes its domain: in every state that the clients can reach, a handle has
-- been opened for a domain as often as the cache holds it for the domain, a client has acquired it
-- for the domain, and it has been destroyed, together.
pub handles_conserved :
    {p : Pool}
    → Reach p
    → (domain : Text) (h : ℕ)
    → loans domain h p.opened
      ≡ cached domain h p.cache + loans domain h p.borrowed + loans domain h p.destroyed
unfolding initial find
handles_conserved begin domain h = refl
handles_conserved (later {p} {q} reach a s) domain h =
    next-Accounted domain h a p q s (handles_conserved reach domain h)

acquire-kept :
    (new sh : Option ℕ) (d : Text) (k : ℕ) (ks : List ℕ) (share : Option ℕ) (cache : Cache)
    → find d cache ≡ some (record { handles = k ∷ ks; share = share })
    → ((acquire new sh d cache).handle ≡ some k) × ((acquire new sh d cache).reused ≡ true)
unfolding acquire take_handle
acquire-kept new sh d k ks share cache e = ground arith

release-kept :
    (d : Text) (k : ℕ) (cache : Cache)
    → (ks : List ℕ) × (share : Option ℕ) × (find d (release_curl_handle d (some k) cache)
        ≡ some (record { handles = k ∷ ks; share = share }))
unfolding release_curl_handle release
release-kept d k cache = elim (Option-cases (find d cache)) [
  | inl e ↦ (
    [],
    none,
    ground (arith, find-set d d (record { handles = k ∷ []; share = none }) cache, text_eq_refl d),
  )
  | inr (item, e) ↦ (
    item.handles,
    item.share,
    ground (
      arith,
      find-set d d (record { handles = k ∷ item.handles; share = item.share }) cache,
      text_eq_refl d,
    ),
  )
]

-- The cache is a stack: what is released for a domain is what the next `acquire` for it returns, and
-- each domain holds what it held before.
pub acquire-release :
    (new sh : Option ℕ) (d : Text) (k : ℕ) (cache : Cache)
    → ((acquire new sh d (release_curl_handle d (some k) cache)).handle ≡ some k)
      × ((domain : Text) (h : ℕ)
          → cached domain h (acquire new sh d (release_curl_handle d (some k) cache)).cache
            ≡ cached domain h cache)
acquire-release new sh d k cache =
    let (ks, share, e) = release-kept d k cache in
    let (got, reused) = acquire-kept new sh d k ks share (release_curl_handle d (some k) cache) e in
    (
      got,
      λ domain h. ground (
        arith,
        acquire-cached domain h new sh d (release_curl_handle d (some k) cache),
        release-cached domain h d k cache,
      ),
    )
