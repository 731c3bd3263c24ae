-- ===== src/Curl/Client/Exclusive.antt =====
-- No two calls of MakeRequest of code/aws/curl/HttpClient.cpp use one handle at the same time.
use lab_cpp.Base.{
  ℕ, ◌+◌, ◌≤◌, ◌≡◌, refl, Option, none, some, List, [], ◌∷◌, if◌then◌else◌, ◌==◌, weigh, arith,
  Option-cases, Bool-cases, inl, inr,
}
use lab_cpp.Base.Text.{Text}
use lab_cpp.Base.Key.{text_key}
use lab_cpp.Base.StdMap.{find, set}
use lab_cpp.Base.StdMap.Laws.{total, total-set_new, total-set_old}
use lab_cpp.Curl.Handles
use lab_cpp.Curl.Handles.{
  acquire_for, release_for, destroy_for, DomainHandles, fresh_item, Cache, Acquired, take_handle,
  acquire, release, release_curl_handle, Pool, lend, end_loan, same_loan,
}
use lab_cpp.Curl.Handles.Conservation.{once}
use lab_cpp.Curl.Options.{Build, CurlHttpClient, CurlOption}
use lab_cpp.Curl.Client
use lab_cpp.Curl.Client.{
  HttpRequest, Client, perform, begin_request, end_request, release_request, reset_handle,
  give_back, begins, ends, releases,
}

-- How often a handle stands in the cache, for any domain, and in the loans.
abbrev pub in_item : ℕ → DomainHandles → ℕ
in_item h item = weigh (λ k. once (k == h)) item.handles

abbrev pub in_cache : ℕ → Cache → ℕ
in_cache h cache = total (in_item h) cache

abbrev pub in_use : ℕ → Pool → ℕ
in_use h p = weigh (λ l. once (l.1 == h)) p.borrowed

abbrev pub IsEnd : Handles.Action → Type 0
IsEnd (acquire_for new share d) = ⊥
IsEnd (release_for d k) = Unit
IsEnd (destroy_for d k) = Unit

module _ (h : ℕ) where
  abbrev pub is_given : Acquired → ℕ
  is_given got = elim got.handle [ none ↦ 0 | some k ↦ once (k == h) ]

  abbrev pub is_new : Acquired → ℕ
  is_new got = if got.reused then 0 else is_given got

  take_handle-in_cache :
      (new : Option ℕ) (d : Text) (hs : List ℕ) (sh : Option ℕ) (cache : Cache)
      → find d cache ≡ some (record { handles = hs; share = sh })
      → in_cache h (take_handle new d (record { handles = hs; share = sh }) cache).cache
          + is_given (take_handle new d (record { handles = hs; share = sh }) cache)
        ≡ in_cache h cache + is_new (take_handle new d (record { handles = hs; share = sh }) cache)
  unfolding take_handle
  take_handle-in_cache new d [] sh cache e = refl
  take_handle-in_cache new d (k ∷ ks) sh cache e = ground (
    arith,
    total-set_old (in_item h) d (record { handles = ks; share = sh })
        (record { handles = k ∷ ks; share = sh }) cache e,
  )

  pub acquire-in_cache :
      (new sh : Option ℕ) (d : Text) (cache : Cache)
      → in_cache h (acquire new sh d cache).cache + is_given (acquire new sh d cache)
        ≡ in_cache h cache + is_new (acquire new sh d cache)
  unfolding acquire
  acquire-in_cache new sh d cache = elim (Option-cases (find d cache)) [
    | inr (item, e) ↦ rw (e, acquire) (take_handle-in_cache new d item.handles item.share cache e)
    | inl e ↦ rw (e, acquire) (omega (arith, total-set_new (in_item h) d (fresh_item sh) cache e))
  ]

  -- 1 for a new handle of this name.
  abbrev pub is_named : Option ℕ → ℕ
  is_named none = 0
  is_named (some k) = once (k == h)

  take_handle-is_new :
      (new : Option ℕ) (d : Text) (hs : List ℕ) (sh : Option ℕ) (cache : Cache)
      → is_new (take_handle new d (record { handles = hs; share = sh }) cache) ≤ is_named new
  unfolding take_handle
  take_handle-is_new none d [] sh cache = omega arith
  take_handle-is_new (some k) d [] sh cache = omega arith
  take_handle-is_new new d (k ∷ ks) sh cache = omega arith

  acquire-is_new :
      (new sh : Option ℕ) (d : Text) (cache : Cache)
      → is_new (acquire new sh d cache) ≤ is_named new
  unfolding acquire
  acquire-is_new new sh d cache = elim (Option-cases (find d cache)) [
    | inr (item, e) ↦ rw (e, acquire) (take_handle-is_new new d item.handles item.share cache)
    | inl e ↦ rw (e, acquire) (take_handle-is_new new d [] sh (set d (fresh_item sh) cache))
  ]

  release-in_cache :
      (d : Text) (k : ℕ) (cache : Cache)
      → in_cache h (release_curl_handle d (some k) cache) ≡ in_cache h cache + once (k == h)
  unfolding release_curl_handle release
  release-in_cache d k cache = elim (Option-cases (find d cache)) [
    | inr (item, e) ↦
        rw (e, release)
          (omega (
            arith,
            total-set_old (in_item h) d (record { handles = k ∷ item.handles; share = item.share })
                item cache e,
          ))
    | inl e ↦
        rw (e, release)
          (omega (
            arith,
            total-set_new (in_item h) d (record { handles = k ∷ []; share = none }) cache e,
          ))
  ]

  pub end_loan-in_use :
      (d : Text) (k : ℕ) (ls left : List (Text × ℕ))
      → end_loan d k ls ≡ some left
      → weigh (λ (l : Text × ℕ). once (l.1 == h)) ls
        ≡ weigh (λ (l : Text × ℕ). once (l.1 == h)) left + once (k == h)
  unfolding end_loan
  end_loan-in_use d k [] left e = cc
  end_loan-in_use d k ((d', k') ∷ ls) left e = elim (Option-cases (end_loan d k ls)) [
    | inl n ↦ ground arith
    | inr (rest, r) ↦ ground (arith, end_loan-in_use d k ls rest r)
  ]

  -- How often a handle is alive: in the cache, or lent.
  abbrev pub live : Pool → ℕ
  live p = in_cache h p.cache + in_use h p

  lend-live :
      (d : Text) (got : Acquired) (p : Pool)
      → live (lend d got p) ≡ in_cache h got.cache + is_given got + in_use h p
  unfolding lend
  lend-live d got p = elim (Option-cases got.handle) [
    | inl n ↦ ground arith
    | inr (k, e) ↦ ground arith
  ]

  acquire-live :
      (new sh : Option ℕ) (d : Text) (p : Pool)
      → live (lend d (acquire new sh d p.cache) p) ≤ live p + is_named new
  acquire-live new sh d p = omega (
    arith,
    lend-live d (acquire new sh d p.cache) p,
    acquire-in_cache new sh d p.cache,
    acquire-is_new new sh d p.cache,
  )

  end-live :
      (a : Handles.Action) (p q : Pool) → IsEnd a → Handles.next a p ≡ some q → live q ≤ live p
  unfolding Handles.next
  end-live (acquire_for new sh d) p q i e = absurd i
  end-live (release_for d k) p q i e = elim (Option-cases (end_loan d k p.borrowed)) [
    | inl n ↦ cc
    | inr (left, l) ↦
        ground (arith, end_loan-in_use d k p.borrowed left l, release-in_cache d k p.cache)
  ]
  end-live (destroy_for d k) p q i e = elim (Option-cases (end_loan d k p.borrowed)) [
    | inl n ↦ cc
    | inr (left, l) ↦ ground (arith, end_loan-in_use d k p.borrowed left l)
  ]

reset_handle-pool :
    (d : Text) (k : ℕ) (c e : Client) → reset_handle d k c ≡ some e → e.pool ≡ c.pool
unfolding reset_handle
reset_handle-pool d k c e s = elim (Option-cases (end_loan d k c.pool.borrowed)) [
  | inl n ↦ ground arith
  | inr (left, n) ↦ ground arith
]

give_back-pool :
    (h : ℕ) (options : ℕ → List CurlOption) (o : Option Pool) (c e : Client)
    → give_back h options o c ≡ some e
    → o ≡ some e.pool
unfolding give_back
give_back-pool h options none c e s = cc
give_back-pool h options (some p) c e s = ground arith

-- What ends a call makes no handle alive.
end_request-live :
    (h : ℕ) (d : Text) (k code : ℕ) (c e : Client)
    → end_request d k code c ≡ some e
    → live h e.pool ≤ live h c.pool
unfolding end_request
end_request-live h d k code c e s = elim (Bool-cases (c.cleared k)) [
  | inl z ↦ let f : none ≡ some e = rw z at s in cc
  | inr z ↦ elim (Bool-cases (code == 0)) [
    | inl y ↦ rw (reset_handle-pool d k c e (rw (z, y) at s)) (omega arith)
    | inr y ↦
        end-live h (destroy_for d k) c.pool e.pool tt
          (give_back-pool k _ (Handles.next (destroy_for d k) c.pool) c e (rw (z, y) at s))
  ]
]

release_request-live :
    (h : ℕ) (d : Text) (k : ℕ) (c e : Client)
    → release_request d k c ≡ some e
    → live h e.pool ≤ live h c.pool
unfolding release_request
release_request-live h d k c e s = elim (Bool-cases (c.cleared k)) [
  | inl z ↦
      end-live h (release_for d k) c.pool e.pool tt
        (give_back-pool k _ (Handles.next (release_for d k) c.pool) c e (rw z at s))
  | inr z ↦ let f : none ≡ some e = rw z at s in cc
]

module _ (build : Build) (clients : ℕ → CurlHttpClient) where
  -- `curl_easy_init` gives no handle that is still alive.
  abbrev pub IsFresh : Client.Action → Client → Type 0
  IsFresh (begins none share which r) c = Unit {0}
  IsFresh (begins (some k) share which r) c = live k c.pool ≡ 0
  IsFresh (ends d k code) c = Unit {0}
  IsFresh (releases d k) c = Unit {0}

  -- The states that any interleaving of calls reaches.
  pub data Reach : Client → Type 0 where
    begin : Reach Client.initial
    later :
        {c d : Client}
        → Reach c
        → (a : Client.Action) → IsFresh a c
        → Client.next build clients a c ≡ some d
        → Reach d

  perform-live :
      (h which : ℕ) (r : HttpRequest) (got : Acquired) (c : Client)
      → live h (perform build clients which r got c).pool ≡ live h (lend r.authority got c.pool)
  unfolding perform
  perform-live h which r got c = elim (Option-cases got.handle) [
    | inl n ↦ ground arith
    | inr (k, e) ↦ ground arith
  ]

  next-live :
      (h : ℕ) (a : Client.Action) (c d : Client)
      → IsFresh a c
      → Client.next build clients a c ≡ some d
      → live h c.pool ≤ 1
      → live h d.pool ≤ 1
  unfolding Client.next begin_request
  next-live h (begins none share which r) c d f s v = ground (
    arith,
    perform-live h which r (acquire none share r.authority c.pool.cache) c,
    acquire-live h none share r.authority c.pool,
  )
  next-live h (begins (some k) share which r) c d f s v = ground (
    arith,
    perform-live h which r (acquire (some k) share r.authority c.pool.cache) c,
    acquire-live h (some k) share r.authority c.pool,
  )
  next-live h (ends d k code) c e f s v = omega (arith, end_request-live h d k code c e s)
  next-live h (releases d k) c e f s v = omega (arith, release_request-live h d k c e s)

  -- A handle is used by one call at most: if `curl_easy_init` gives no handle that is still alive, then
  -- in every state that calls of any clients can reach, in any interleaving, no handle is lent twice, cached twice, or
  -- both lent and cached.
  pub exclusive_handles :
      {c : Client} → Reach c → (h : ℕ) → in_cache h c.pool.cache + in_use h c.pool ≤ 1
  unfolding Client.initial Handles.initial
  exclusive_handles begin h = omega arith
  exclusive_handles (later {c} {d} reach a f s) h =
      next-live h a c d f s (exclusive_handles reach h)
