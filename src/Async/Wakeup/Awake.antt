-- ===== src/Async/Wakeup/Awake.antt =====
-- No wake-up of the workers is lost (code/util/async_queue.h).
use mathlib.Core.Path.{subst}
use mathlib.Core.Option.{some-injective}
use lab_cpp.Base.{
  ℕ, ◌+◌, ◌≤◌, ◌<◌, ◌≡◌, refl, true, false, ◌&&◌, Bool-cases, inl, inr, none, some, length, ltb,
  ◌==◌, arith,
}
use lab_cpp.Base.Threads.{sum_below, sum_below-eq-zero}
use lab_cpp.Async.Queue.{
  Worker, waiting, running, notifying, stopped, Queue, construct, push, turn, fetch, respond, pop,
  consume,
}
use lab_cpp.Async.Queue
use lab_cpp.Async.Wakeup.{
  is_asleep, is_woken, Threads, Signal, push_request, notify_one, notify_nobody, work_on, wake_up,
  pop_responses, consume_responses, destroy, notify_all, rouse, all_up, next, Reach, start, later,
}
use lab_cpp.Async.Wakeup.Roused.{rouse-awake, asleeps, Roused}
use lab_cpp.Async.Wakeup.Steps.{
  over_queue-IsRoused, push_to-IsRoused, push-length, notify_at-IsRoused, wake_at-IsRoused,
  work_at-IsRoused, pop-length, consume-length, allowed,
}

module _ {Req Resp : Type 0} (answer : Req → Resp) (n : ℕ) where
  next-IsRoused :
      (a : Signal Req) (s t : Threads Req Resp)
      → next answer n a s ≡ some t
      → Roused answer n s
      → Roused answer n t
  unfolding next Queue.next
  next-IsRoused (push_request r) s t e d =
      push_to-IsRoused answer n _ s t
        (λ q f.
          let (stop, more) = push-length answer n r s.queue q f in
          (Queue.later d.reached (Queue.push_request r) f, stop, more))
        e d
  next-IsRoused (notify_one i) s t e d =
      let (h, f) = allowed answer n i _ t e in
      notify_at-IsRoused answer n i (s.stands i) s t h refl f d
  next-IsRoused notify_nobody s t e d =
      elim (Bool-cases (ltb 0 s.notifications && (asleeps answer n s.stands == 0))) [
        | inl c ↦ subst (Roused answer n) (some-injective _ _ (rw c at e)) (record {
          reached = d.reached;
          matched = λ l. absurd (ground (arith, c, l));
          closed = d.closed;
        })
        | inr c ↦ let f : none ≡ some t = rw c at e in cc
      ]
  next-IsRoused (work_on i) s t e d =
      let (h, f) = allowed answer n i _ t e in
      work_at-IsRoused answer n i (s.stands i) (s.queue.workers i) s t h refl refl f d
  next-IsRoused (wake_up i) s t e d =
      let (h, f) = allowed answer n i _ t e in
      wake_at-IsRoused answer n i (s.stands i) s t h refl f d
  next-IsRoused pop_responses s t e d =
      over_queue-IsRoused answer n _ s t
        (λ q f.
          let (stop, same) = pop-length answer n s.queue.popping s.queue q f in
          (Queue.later d.reached Queue.pop_responses f, stop, same))
        e d
  next-IsRoused consume_responses s t e d =
      over_queue-IsRoused answer n _ s t
        (λ q f.
          let (stop, same) = consume-length answer n s.queue.popping s.queue q f in
          (Queue.later d.reached Queue.consume_responses f, stop, same))
        e d
  next-IsRoused destroy s t e d = subst (Roused answer n) (some-injective _ _ e) (record {
    reached = Queue.later d.reached Queue.destroy refl;
    matched = d.matched;
    closed = λ c z. cc;
  })
  next-IsRoused notify_all s t e d = elim (Bool-cases s.stopping) [
    | inl c ↦
        let none_left =
          sum_below-eq-zero is_asleep n (λ i. rouse (s.stands i))
            (λ i h. rouse-awake (s.stands i)) in
        subst (Roused answer n) (some-injective _ _ (rw c at e)) (record {
          reached = d.reached;
          matched = λ l. absurd (omega (arith, l, none_left));
          closed = λ z y. none_left;
        })
    | inr c ↦ let f : none ≡ some t = rw c at e in cc
  ]

  Reach-IsRoused : {s : Threads Req Resp} → Reach answer n s → Roused answer n s
  unfolding all_up construct
  Reach-IsRoused start = record {
    reached = Queue.start;
    matched = λ l. omega arith;
    closed = λ c. cc;
  }
  Reach-IsRoused (later {s} {t} reach a e) = next-IsRoused a s t e (Reach-IsRoused reach)

  -- No wake-up is lost: in every state that a pool can reach, with `notify_one` on a condition variable
  -- that may also wake for nothing, while a worker sleeps there are at most as many requests in the
  -- queue as calls of PushRequest that are about to notify and workers that have been woken.
  pub requests_woken :
      {s : Threads Req Resp}
      → Reach answer n s
      → 0 < sum_below is_asleep n s.stands
      → length s.queue.request_queue ≤ s.notifications + sum_below is_woken n s.stands
  requests_woken reach l = (Reach-IsRoused reach).matched l

  -- The destructor leaves no worker asleep: in every state that a pool can reach in which it has set
  -- `stop_` and called `notify_all`, no worker sleeps.
  pub stop_wakes :
      {s : Threads Req Resp}
      → Reach answer n s
      → s.queue.stop ≡ true
      → s.stopping ≡ false
      → sum_below is_asleep n s.stands ≡ 0
  stop_wakes reach c z = (Reach-IsRoused reach).closed c z
