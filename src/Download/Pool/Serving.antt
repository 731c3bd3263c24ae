-- ===== src/Download/Pool/Serving.antt =====
-- What holds of the Downloader of code/aws/downloader.cc whenever one of its threads may run.
use mathlib.Core.Path.{subst}
use mathlib.Core.Option.{some-injective}
use lab_cpp.Base.{
  ℕ, ◌≤◌, ◌≡◌, ◌≢◌, refl, true, false, Bool, List, [], ◌∷◌, ◌++◌, ltb, Option, none, some,
  if◌then◌else◌, weigh,
}
use lab_cpp.Async.Queue
use lab_cpp.Async.Queue.{
  Worker, running, waiting, Queue, push_request, pop_responses, consume_responses, construct, push,
  pop, consume,
}
use lab_cpp.Download.Fetch.{DownloadRequest}
use lab_cpp.Download.Init.{Barrier, queued}
use lab_cpp.Download.Pool.Interrupted.{IsInterrupted}
use lab_cpp.Download.Pool.{
  Job, init_task, get_object, Caller, initializing, interrupting, enqueuing, processing, Service,
  job_of, is_init, ends_download, is_initializing, with_barrier, with_pool,
}

pub ends_download-append :
    (before : Bool) (request : DownloadRequest) (jobs : List Job)
    → ends_download before (jobs ++ get_object request ∷ []) ≡ true
unfolding ends_download
ends_download-append before request [] = refl
ends_download-append before request (init_task k ∷ jobs) = ends_download-append false request jobs
ends_download-append before request (get_object r ∷ jobs) = ends_download-append true request jobs

pub ends_download-init :
    (before : Bool) (k : ℕ) (jobs : List Job)
    → ends_download before (jobs ++ init_task k ∷ []) ≡ false
unfolding ends_download
ends_download-init before k [] = refl
ends_download-init before k (init_task j ∷ jobs) = ends_download-init false k jobs
ends_download-init before k (get_object r ∷ jobs) = ends_download-init true k jobs

module _ (max n : ℕ) where
  -- 1 for a task that InitConnections does not have.
  abbrev pub is_unknown : Job → ℕ
  is_unknown (init_task k) = if ltb k max then 0 else 1
  is_unknown (get_object request) = 0

  -- ProcessResponses is the only call that holds responses; the tasks are those of InitConnections,
  -- and none has started before that call; a download that is queued after it finds them
  -- interrupted.
  pub record IsServing (client : Caller) (b : Barrier) (q : Queue Job Job) : Type 0 where
    pub reached : Queue.Reach job_of n q
    pub open_pool : q.stop ≡ false
    pub known : weigh is_unknown q.pushed ≡ 0
    pub free : client ≢ processing → q.popping ≡ none
    pub cancelled : (r : DownloadRequest) → client ≡ interrupting r → max ≤ b.init_counter
    pub freed : (r : DownloadRequest) → client ≡ enqueuing r → IsInterrupted max b
    pub fresh : weigh is_init q.pushed ≡ 0 → (j : ℕ) → b.tasks j ≡ queued
    pub starting :
        (k : ℕ)
        → client ≡ initializing k
        → ends_download false q.pushed ≡ true
        → (k ≡ 0) × (weigh is_init q.pushed ≡ 0)
    pub interrupted :
        is_initializing client ≡ false → ends_download false q.pushed ≡ true → IsInterrupted max b

  pub with_pool-serves :
      (client : Caller) (b : Barrier) (o : Option (Queue Job Job)) (t : Service)
      → ((q : Queue Job Job) → o ≡ some q → IsServing client b q)
      → with_pool client b o ≡ some t
      → IsServing t.client t.barrier t.queue
  with_pool-serves client b none t f e = cc
  with_pool-serves client b (some q) t f e =
      subst (λ u. IsServing u.client u.barrier u.queue) (some-injective _ _ e) (f q refl)

  pub with_barrier-serves :
      (client : Caller) (q : Queue Job Job) (o : Option Barrier) (t : Service)
      → ((b : Barrier) → o ≡ some b → IsServing client b q)
      → with_barrier client q o ≡ some t
      → IsServing t.client t.barrier t.queue
  with_barrier-serves client q none t f e = cc
  with_barrier-serves client q (some b) t f e =
      subst (λ u. IsServing u.client u.barrier u.queue) (some-injective _ _ e) (f b refl)
