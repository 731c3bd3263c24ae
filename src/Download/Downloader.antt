-- ===== src/Download/Downloader.antt =====
-- class Downloader of code/aws/downloader.h: the clients that its constructor makes, the request and the
-- record of a task of InitConnections, and ScheduleDownload and ProcessResponses over the barrier and
-- the queue. The clients themselves are the SDK's; theirs is what they are made of.
use mathlib.Core.Path.{subst}
use lab_cpp.Base.{
  ℕ, ◌≤◌, ◌≡◌, ◌≢◌, Bool, true, false, ◌&&◌, Option, none, some, [], ◌∷◌, if◌then◌else◌, ◌==◌,
  arith,
}
use lab_cpp.Base.Int.{pos}
use lab_cpp.Base.Status.{Outcome, returns, throws, thrown_text}
use lab_cpp.Base.Text.{Text, codes}
use lab_cpp.Toolbox.{get_duration_ms, random_alphanum}
use lab_cpp.Metrics.{Impl, new_init_connection}
use lab_cpp.Sdk.{Scheme, common_config}
use lab_cpp.Async.Queue.{Queue, push, pop, consume}
use lab_cpp.Download.Init.{
  Barrier, Task, queued, requesting, announcing, aborted, opened, parked, woken, leaving, wake,
  cancel, notify_cancelled, next,
}

pub record SdkOptions : Type 0 where
  pub region : Text
  pub endpoint_override : Text
  pub scheme : Text

-- What the constructor sets of Aws::Client::ClientConfiguration; none is the SDK's own value.
pub record S3Configuration : Type 0 where
  pub region : Text
  pub endpoint_override : Text
  pub scheme : Scheme
  pub max_retries : Option ℕ
  pub http_request_timeout_ms : Option ℕ
  pub connect_timeout_ms : Option ℕ

-- `common_config`; the exception has the first operand of the `throw` only.
unfoldable pub s3_config : SdkOptions → Outcome S3Configuration
unfolding common_config
s3_config options = elim (common_config options.scheme) [
  | none ↦ throws (thrown_text (codes "Invalid S3 connection scheme '"))
  | some scheme ↦ returns (record {
    region = options.region;
    endpoint_override = options.endpoint_override;
    scheme = scheme;
    max_retries = none;
    http_request_timeout_ms = none;
    connect_timeout_ms = none;
  })
]

pub record Clients : Type 0 where
  pub dl_client : S3Configuration
  pub init_client : S3Configuration
  pub use_virtual_addressing : Bool

abbrev pub has_no_override : Text → Bool
has_no_override [] = true
has_no_override (c ∷ cs) = false

abbrev pub with_config : Outcome S3Configuration → SdkOptions → Outcome Clients
with_config (throws e) options = throws e
with_config (returns config) options = returns (record {
  dl_client = record config { max_retries = some 3 };
  init_client = record config {
    max_retries = some 0;
    http_request_timeout_ms = some 500;
    connect_timeout_ms = some 500;
  };
  use_virtual_addressing = has_no_override options.endpoint_override;
})

-- The constructor.
unfoldable pub make_clients : SdkOptions → Outcome Clients
unfolding s3_config
make_clients options = with_config (s3_config options) options

-- The key of an initial request, at the time that random_alphanum reads.
unfoldable pub randomized_key : ℕ → Text
unfolding random_alphanum
randomized_key now = random_alphanum now ∷ codes "/cloudfusefakekey"

-- The time points of a task; 0 is one that is not set.
pub record Blocking : Type 0 where
  pub blocking_start_time : ℕ
  pub blocking_end_time : ℕ

abbrev pub not_blocked : Blocking
not_blocked = record { blocking_start_time = 0; blocking_end_time = 0 }

-- The handler of received data, by the times at its beginning and end: its first call counts.
unfoldable pub data_received : ℕ → ℕ → Blocking → Blocking
data_received start end b =
    if b.blocking_start_time == 0
    then record { blocking_start_time = start; blocking_end_time = end }
    else b

-- Behind the request: a task whose handler was not called is not blocked at all.
unfoldable pub settle : ℕ → Blocking → Blocking
settle now b =
    if (b.blocking_start_time == 0) && (b.blocking_end_time == 0)
    then record { blocking_start_time = now; blocking_end_time = now }
    else b

-- What a task records in the end, or where it gives up.
unfoldable pub record_init : (recorded thread start now : ℕ) → Text → Blocking → Impl → Impl
unfolding new_init_connection get_duration_ms
record_init recorded thread start now result b m =
    new_init_connection recorded thread result (get_duration_ms start now)
      (get_duration_ms start b.blocking_start_time)
      (get_duration_ms b.blocking_start_time b.blocking_end_time) m

unfoldable pub record_aborted : (recorded thread start now : ℕ) → Impl → Impl
unfolding new_init_connection get_duration_ms
record_aborted recorded thread start now m =
    new_init_connection recorded thread (codes "ABORTED") (get_duration_ms start now) (pos 0)
      (pos 0) m

-- The state of a Downloader that its callers change.
pub record Downloader (Req Resp : Type 0) : Type 0 where
  pub barrier : Barrier
  pub queue : Queue Req Resp

module _ {Req Resp : Type 0} (answer : Req → Resp) (max_init_count pool_size : ℕ) where
  abbrev pub with_both : Option Barrier → Option (Queue Req Resp) → Option (Downloader Req Resp)
  with_both (some barrier) (some queue) = some (record { barrier = barrier; queue = queue })
  with_both _ _ = none

  abbrev pub cancelled : Barrier → Option Barrier
  unfolding next
  cancelled b = elim (next max_init_count pool_size cancel b) [
    | none ↦ none
    | some c ↦ next max_init_count pool_size notify_cancelled c
  ]

  -- ScheduleDownload, with no other thread in between.
  unfoldable pub schedule_download : Req → Downloader Req Resp → Option (Downloader Req Resp)
  unfolding push next
  schedule_download request d = with_both (cancelled d.barrier) (push answer request d.queue)

  -- ProcessResponses
  unfoldable pub process_responses : Downloader Req Resp → Option (Downloader Req Resp)
  unfolding pop consume
  process_responses d = elim (pop answer d.queue.popping d.queue) [
    | none ↦ none
    | some q ↦ with_both (some d.barrier) (consume answer q.popping q)
  ]

  wake-not_parked : (t : Task) → wake t ≢ parked
  wake-not_parked queued e = cc
  wake-not_parked requesting e = cc
  wake-not_parked parked e = cc
  wake-not_parked woken e = cc
  wake-not_parked announcing e = cc
  wake-not_parked leaving e = cc
  wake-not_parked aborted e = cc
  wake-not_parked opened e = cc

  with_both-barrier :
      (b : Barrier) (o : Option (Queue Req Resp)) (e : Downloader Req Resp)
      → with_both (some b) o ≡ some e
      → b ≡ e.barrier
  with_both-barrier b none e s = cc
  with_both-barrier b (some q) e s = ground arith

  -- ScheduleDownload frees the threads of its pool: afterwards no task of InitConnections is blocked, and,
  -- for a pool of at least `max_init_count` threads, the counter has reached its goal.
  pub schedule_frees :
      (request : Req) (d e : Downloader Req Resp)
      → schedule_download request d ≡ some e
      → max_init_count ≤ pool_size
      → ((i : ℕ) → e.barrier.tasks i ≢ parked) × (max_init_count ≤ e.barrier.init_counter)
  unfolding schedule_download next
  schedule_frees request d e s h =
      subst (λ b. ((i : ℕ) → b.tasks i ≢ parked) × (max_init_count ≤ b.init_counter))
        (with_both-barrier _ (push answer request d.queue) e s)
        (λ i. wake-not_parked (d.barrier.tasks i), h)
