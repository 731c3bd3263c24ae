-- ===== src/Curl/Handles.antt =====
-- code/aws/curl/HandleContainer.cpp: the curl handles that each domain keeps for reuse. What curl's
-- functions return is an argument; a handle and a share are their addresses, and a null one is
-- `none`.
pub mod Conservation
use lab_cpp.Base.{
  ℕ, ◌+◌, ◌/◌, ◌≡◌, Bool, true, false, ◌&&◌, Option, none, some, List, [], ◌∷◌, ◌++◌, map,
  if◌then◌else◌, ltb, ◌==◌,
}
use lab_cpp.Base.Int.{ℤ, pos, ltb_ℤ, eqb_ℤ, negsuc}
use lab_cpp.Base.Text.{Text, text_eq}
use lab_cpp.Base.Key.{text_key}
use lab_cpp.Base.StdMap.{StdMap, find, set}

-- struct DomainHandles; the vector is kept with its back first.
pub record DomainHandles : Type 0 where
  pub handles : List ℕ
  pub share : Option ℕ

abbrev pub Cache : Type 0
Cache = StdMap Text DomainHandles

-- What `acquire` does: the handle that it returns, the new cache, whether the handle comes from the
-- cache, and the share that it has set on a handle that it had to make.
pub record Acquired : Type 0 where
  pub handle : Option ℕ
  pub cache : Cache
  pub reused : Bool
  pub share : Option ℕ

-- `curl_easy_init()` gives `new_handle`. A new handle joins the share of its domain.
unfoldable pub take_handle : Option ℕ → Text → DomainHandles → Cache → Acquired
take_handle new_handle domain item cache = elim item.handles [
  | h ∷ rest ↦ record {
    handle = some h;
    cache = set domain (record { handles = rest; share = item.share }) cache;
    reused = true;
    share = none;
  }
  | [] ↦ record { handle = new_handle; cache = cache; reused = false; share = item.share }
]

abbrev pub fresh_item : Option ℕ → DomainHandles
fresh_item new_share = record { handles = []; share = new_share }

-- DomainHandleCache::acquire; `new_share` is what `new_share()` gives.
unfoldable pub acquire : Option ℕ → Option ℕ → Text → Cache → Acquired
unfolding take_handle
acquire new_handle new_share domain cache = elim (find domain cache) [
  | some item ↦ take_handle new_handle domain item cache
  | none ↦
      take_handle new_handle domain (fresh_item new_share) (set domain (fresh_item new_share) cache)
]

-- DomainHandleCache::release; `cache_[domain]` makes an entry that is not there.
unfoldable pub release : Text → ℕ → Cache → Cache
release domain h cache = elim (find domain cache) [
  | some item ↦ set domain (record { handles = h ∷ item.handles; share = item.share }) cache
  | none ↦ set domain (record { handles = h ∷ []; share = none }) cache
]

-- The destructor: the handles that it cleans up, and the shares.
unfoldable pub destruct : Cache → List ℕ × List (Option ℕ)
destruct [] = ([], [])
destruct ((domain, item) ∷ cache) =
    let (handles, shares) = destruct cache in (item.handles ++ handles, item.share ∷ shares)

-- ReleaseCurlHandle ignores a null handle, and resets another before the cache gets it.
unfoldable pub release_curl_handle : Text → Option ℕ → Cache → Cache
unfolding release
release_curl_handle domain none cache = cache
release_curl_handle domain (some h) cache = release domain h cache

-- DestroyCurlHandle: the handle that `curl_easy_cleanup` gets.
unfoldable pub destroy_curl_handle : Option ℕ → List ℕ
destroy_curl_handle none = []
destroy_curl_handle (some h) = h ∷ []

-- The value of CURLOPT_LOW_SPEED_TIME, in seconds, for milliseconds.
unfoldable pub low_speed_time : ℤ → ℤ
low_speed_time (pos n) = if ltb n 1000 then if n == 0 then pos 0 else pos 1 else pos (n / 1000)
low_speed_time (negsuc n) = pos 1

pub record Options : Type 0 where
  pub no_signal : ℕ
  pub timeout_ms : ℤ
  pub connect_timeout_ms : ℤ
  pub low_speed_limit : ℕ
  pub low_speed_time : ℤ
  pub tcp_keep_alive : ℕ
  pub tcp_keep_intvl : ℕ
  pub tcp_keep_idle : ℕ

-- The members of a CurlHandleContainer.
pub record CurlHandleContainer : Type 0 where
  pub http_request_timeout : ℤ
  pub connect_timeout : ℤ
  pub enable_tcp_keep_alive : Bool
  pub tcp_keep_alive_interval_ms : ℕ
  pub low_speed_time : ℤ
  pub low_speed_limit : ℕ

-- SetDefaultOptionsOnHandle, without the version of HTTP that a build may set.
unfoldable pub set_default_options : CurlHandleContainer → Options
set_default_options c = record {
  no_signal = 1;
  timeout_ms = c.http_request_timeout;
  connect_timeout_ms = c.connect_timeout;
  low_speed_limit = c.low_speed_limit;
  low_speed_time = low_speed_time c.low_speed_time;
  tcp_keep_alive = if c.enable_tcp_keep_alive then 1 else 0;
  tcp_keep_intvl = c.tcp_keep_alive_interval_ms / 1000;
  tcp_keep_idle = c.tcp_keep_alive_interval_ms / 1000;
}

-- AcquireCurlHandle: the handle and its options.
unfoldable pub acquire_curl_handle :
    CurlHandleContainer → Option ℕ → Option ℕ → Text → Cache → Acquired × Options
unfolding acquire set_default_options
acquire_curl_handle c new_handle new_share domain cache =
    (acquire new_handle new_share domain cache, set_default_options c)

-- The container with its clients: the handles that they have acquired, for which domain, and what
-- has been opened and destroyed so far.
pub record Pool : Type 0 where
  pub cache : Cache
  pub borrowed : List (Text × ℕ)
  pub opened : List (Text × ℕ)
  pub destroyed : List (Text × ℕ)

unfoldable pub initial : Pool
initial = record { cache = []; borrowed = []; opened = []; destroyed = [] }

-- A client that gets a null handle keeps nothing.
unfoldable pub lend : Text → Acquired → Pool → Pool
lend domain got p = elim got.handle [
  | none ↦ record p { cache = got.cache }
  | some h ↦ record p {
    cache = got.cache;
    borrowed = (domain, h) ∷ p.borrowed;
    opened = if got.reused then p.opened else (domain, h) ∷ p.opened;
  }
]

abbrev pub same_loan : Text → ℕ → Text × ℕ → Bool
same_loan domain h (d, k) = text_eq d domain && k == h

-- What is left when a loan ends; a client returns what it has acquired, for the same domain.
unfoldable pub end_loan : Text → ℕ → List (Text × ℕ) → Option (List (Text × ℕ))
end_loan domain h [] = none
end_loan domain h (l ∷ ls) =
    let rest = end_loan domain h ls in
    if same_loan domain h l
    then some ls
    else elim rest [ none ↦ none | some left ↦ some (l ∷ left) ]

pub data Action : Type 0 where
  acquire_for : (new_handle new_share : Option ℕ) (domain : Text) → Action
  release_for : (domain : Text) (handle : ℕ) → Action
  destroy_for : (domain : Text) (handle : ℕ) → Action

unfoldable pub next : Action → Pool → Option Pool
unfolding acquire lend release_curl_handle
next (acquire_for new_handle new_share domain) p =
    some (lend domain (acquire new_handle new_share domain p.cache) p)
next (release_for domain h) p = elim (end_loan domain h p.borrowed) [
  | none ↦ none
  | some left ↦
      some (record p { cache = release_curl_handle domain (some h) p.cache; borrowed = left })
]
next (destroy_for domain h) p = elim (end_loan domain h p.borrowed) [
  | none ↦ none
  | some left ↦ some (record p { borrowed = left; destroyed = (domain, h) ∷ p.destroyed })
]

pub data Reach : Pool → Type 0 where
  begin : Reach initial
  later : {p q : Pool} → Reach p → (a : Action) → next a p ≡ some q → Reach q
