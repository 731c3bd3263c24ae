-- ===== src/Curl/Client/Fresh.antt =====
-- Every request of code/aws/curl/HttpClient.cpp runs with its own options, whether its handle is new or
-- comes from the cache.
use lab_cpp.Base.{
  ℕ, ◌+◌, ◌≤◌, ◌≡◌, refl, true, false, none, Bool-cases, Option, some, List, [], ◌∷◌, ◌==◌, arith,
  Option-cases, inl, inr,
}
use lab_cpp.Base.Text.{Text}
use mathlib.Core.Path.{subst, subst⁻¹}
use mathlib.Core.Option.{some-injective}
use lab_cpp.Curl.Handles
use lab_cpp.Curl.Handles.{
  acquire_for, release_for, destroy_for, Acquired, acquire, lend, Pool, end_loan,
}
use lab_cpp.Curl.Options.{Build, CurlHttpClient, CurlOption}
use lab_cpp.Curl.Client
use lab_cpp.Curl.Client.{
  HttpRequest, Client, Performed, perform, begin_request, end_request, release_request,
  reset_handle, give_back, begins, ends, releases, update, set_options,
}
use lab_cpp.Curl.Client.Exclusive.{
  in_cache, in_use, acquire-in_cache, end_loan-in_use, Reach, begin, later, exclusive_handles,
}

reused-free :
    (new share : Option ℕ) (d : Text) (h : ℕ) (p : Pool)
    → in_cache h p.cache + in_use h p ≤ 1
    → (acquire new share d p.cache).handle ≡ some h
    → (acquire new share d p.cache).reused ≡ true
    → in_use h p ≡ 0
reused-free new share d h p x e r = ground (arith, acquire-in_cache h new share d p.cache)

-- What is not lent has no options, nor has what is to be given back.
IsClear : Client → Type 0
IsClear c =
    ((h : ℕ) → in_use h c.pool ≡ 0 → c.options h ≡ [])
    × ((h : ℕ) → c.cleared h ≡ true → c.options h ≡ [])

reset_handle-IsClear :
    (d : Text) (k : ℕ) (c e : Client)
    → reset_handle d k c ≡ some e
    → IsClear c
    → IsClear e × (e.performed ≡ c.performed)
unfolding reset_handle IsClear
reset_handle-IsClear d k c e s (v, u) = elim (Option-cases (end_loan d k c.pool.borrowed)) [
  | inl n ↦ let f : none ≡ some e = rw (n, reset_handle) at s in cc
  | inr (left, n) ↦
      subst (λ e. IsClear e × (e.performed ≡ c.performed))
        (some-injective _ _ (rw (n, reset_handle) at s))
        ((λ h z. ground (arith, v h), λ h z. ground (arith, u h)), refl)
]

-- A handle that is given back has no options, or its client has cleaned it up.
give_back-IsClear :
    (d : Text) (k : ℕ) (options : ℕ → List CurlOption) (p : Pool) (left : List (Text × ℕ))
    (c e : Client)
    → end_loan d k c.pool.borrowed ≡ some left
    → p.borrowed ≡ left
    → options k ≡ []
    → ((h : ℕ) → c.options h ≡ [] → options h ≡ [])
    → ((h : ℕ) → (k == h) ≡ false → options h ≡ c.options h)
    → give_back k options (some p) c ≡ some e
    → IsClear c
    → IsClear e × (e.performed ≡ c.performed)
unfolding give_back IsClear
give_back-IsClear d k options p left c e l b o m q s (v, u) =
    subst (λ e. IsClear e × (e.performed ≡ c.performed)) (some-injective _ _ s)
      (
        (
          λ h z. ground (arith, v h, o, m h, q h, end_loan-in_use h d k c.pool.borrowed left l),
          λ h z. ground (arith, u h, m h),
        ),
        refl,
      )

end_request-IsClear :
    (d : Text) (k code : ℕ) (c e : Client)
    → end_request d k code c ≡ some e
    → IsClear c
    → IsClear e × (e.performed ≡ c.performed)
unfolding end_request Handles.next
end_request-IsClear d k code c e s v = elim (Bool-cases (c.cleared k)) [
  | inl z ↦ let f : none ≡ some e = rw z at s in cc
  | inr z ↦ elim (Bool-cases (code == 0)) [
    | inl y ↦ reset_handle-IsClear d k c e (rw (z, y) at s) v
    | inr y ↦ elim (Option-cases (end_loan d k c.pool.borrowed)) [
      | inl n ↦ let f : none ≡ some e = rw (z, y, n, Handles.next, give_back) at s in cc
      | inr (left, n) ↦
          give_back-IsClear d k (update k [] c.options) _ left c e n refl (ground arith)
            (λ h g. ground arith) (λ h g. ground arith) (rw (z, y, n, Handles.next) at s) v
    ]
  ]
]

release_request-IsClear :
    (d : Text) (k : ℕ) (c e : Client)
    → release_request d k c ≡ some e
    → IsClear c
    → IsClear e × (e.performed ≡ c.performed)
unfolding release_request Handles.next IsClear
release_request-IsClear d k c e s v = elim (Bool-cases (c.cleared k)) [
  | inr z ↦ let f : none ≡ some e = rw z at s in cc
  | inl z ↦ elim (Option-cases (end_loan d k c.pool.borrowed)) [
    | inl n ↦ let f : none ≡ some e = rw (z, n, Handles.next, give_back) at s in cc
    | inr (left, n) ↦
        give_back-IsClear d k c.options _ left c e n refl (v.1 k z) (λ h g. g) (λ h g. refl)
          (rw (z, n, Handles.next) at s) v
  ]
]

module _ (build : Build) (clients : ℕ → CurlHttpClient) where
  -- A call of curl had the options of its own client and request, and no others.
  abbrev pub AllOwn : List Performed → Type 0
  AllOwn [] = Unit {0}
  AllOwn (p ∷ ps) = (p.options ≡ set_options build (clients p.client) p.request) × AllOwn ps

  perform-IsClear :
      (which : ℕ) (r : HttpRequest) (got : Acquired) (c : Client)
      → IsClear c
      → IsClear (perform build clients which r got c)
  unfolding perform lend IsClear
  perform-IsClear which r got c (v, u) = elim (Option-cases got.handle) [
    | inl n ↦ (λ h z. ground (arith, v h), λ h z. ground (arith, u h))
    | inr (k, e) ↦ (λ h z. ground (arith, v h), λ h z. ground (arith, u h))
  ]

  perform-own :
      (which : ℕ) (r : HttpRequest) (got : Acquired) (c : Client)
      → ((h : ℕ) → got.handle ≡ some h → got.reused ≡ true → c.options h ≡ [])
      → AllOwn c.performed
      → AllOwn (perform build clients which r got c).performed
  unfolding perform
  perform-own which r got c v o = elim (Option-cases got.handle) [
    | inl n ↦ ground arith
    | inr (k, e) ↦ ground (arith, v k)
  ]

  -- Between the actions.
  IsClean : Client → Type 0
  IsClean c = IsClear c × AllOwn c.performed

  end-IsClean :
      (c e : Client) → IsClear e × (e.performed ≡ c.performed) → AllOwn c.performed → IsClean e
  unfolding IsClean
  end-IsClean c e (v, p) o = (v, subst⁻¹ AllOwn p o)

  next-IsClean :
      (a : Client.Action) (c d : Client)
      → ((h : ℕ) → in_cache h c.pool.cache + in_use h c.pool ≤ 1)
      → Client.next build clients a c ≡ some d
      → IsClean c
      → IsClean d
  unfolding Client.next begin_request IsClean IsClear
  next-IsClean (begins new share which r) c d x s (v, o) =
      let got = acquire new share r.authority c.pool.cache in
      subst IsClean (some-injective _ _ s) (
        perform-IsClear which r got c v,
        perform-own which r got c
            (λ h e u. v.0 h (reused-free new share r.authority h c.pool (x h) e u)) o,
      )
  next-IsClean (ends d k code) c e x s (v, o) =
      end-IsClean c e (end_request-IsClear d k code c e s v) o
  next-IsClean (releases d k) c e x s (v, o) =
      end-IsClean c e (release_request-IsClear d k c e s v) o

  Reach-IsClean : {c : Client} → Reach build clients c → IsClean c
  unfolding Client.initial IsClean IsClear
  Reach-IsClean begin = ((λ h z. refl, λ h z. refl), tt)
  Reach-IsClean (later {c} {d} reach a f s) =
      next-IsClean a c d (exclusive_handles build clients reach) s (Reach-IsClean reach)

  -- Reuse is invisible: if `curl_easy_init` gives no handle that is still alive, then in every state
  -- that calls of any clients can reach, in any interleaving, whichever handles pass from one client
  -- to another, each call of `curl_easy_perform` so far had the options of its own client and request
  -- and no others, as if every handle were new.
  pub reuse_invisible : {c : Client} → Reach build clients c → AllOwn c.performed
  unfolding IsClean
  reuse_invisible reach = (Reach-IsClean reach).1
