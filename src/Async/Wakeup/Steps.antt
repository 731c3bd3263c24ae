-- ===== src/Async/Wakeup/Steps.antt =====
-- Each step of the sleepers and of the workers of code/util/async_queue.h keeps what holds of them.
use mathlib.Core.Path.{subst}
use mathlib.Core.Option.{some-injective}
use lab_cpp.Base.{
  ℕ, ◌+◌, ◌<◌, ◌≡◌, ◌≢◌, refl, sym, ap, ◌∙◌, Bool-cases, inl, inr, Option, none, some, Option-cases,
  List, [], ◌∷◌, length, length-append, if◌then◌else◌, ltb, arith,
}
use lab_cpp.Base.Threads.{sum_below-move}
use lab_cpp.Async.Queue.{
  Worker, waiting, running, notifying, stopped, Queue, construct, push, turn, fetch, respond, pop,
  consume,
}
use lab_cpp.Async.Queue
use lab_cpp.Async.Work.{worker-turn, turn-keeps}
use lab_cpp.Async.Wakeup.{
  Stand, up, asleep, woken, is_asleep, is_woken, Threads, over_queue, push_to, work_at, notify_at,
  wake_at,
}
use lab_cpp.Async.Wakeup.Roused.{Roused, look-IsRoused}

module _ {Req Resp : Type 0} (answer : Req → Resp) (n : ℕ) where
  pub over_queue-IsRoused :
      (o : Option (Queue Req Resp)) (s t : Threads Req Resp)
      → ((q : Queue Req Resp)
          → o ≡ some q
          → Queue.Reach answer n q
            × (q.stop ≡ s.queue.stop)
            × (length q.request_queue ≡ length s.queue.request_queue))
      → over_queue answer n s o ≡ some t
      → Roused answer n s
      → Roused answer n t
  over_queue-IsRoused none s t f e d = cc
  over_queue-IsRoused (some q) s t f e d =
      let (reached, stop, same) = f q refl in
      subst (Roused answer n) (some-injective _ _ e) (record {
        reached = reached;
        matched = λ l. omega (arith, same, d.matched l);
        closed = λ c z. d.closed (sym stop ∙ c) z;
      })

  pub push_to-IsRoused :
      (o : Option (Queue Req Resp)) (s t : Threads Req Resp)
      → ((q : Queue Req Resp)
          → o ≡ some q
          → Queue.Reach answer n q
            × (q.stop ≡ s.queue.stop)
            × (length q.request_queue ≡ length s.queue.request_queue + 1))
      → push_to answer n o s ≡ some t
      → Roused answer n s
      → Roused answer n t
  unfolding push_to
  push_to-IsRoused none s t f e d = cc
  push_to-IsRoused (some q) s t f e d =
      let (reached, stop, more) = f q refl in
      subst (Roused answer n) (some-injective _ _ e) (record {
        reached = reached;
        matched = λ l. omega (arith, more, d.matched l);
        closed = λ c z. d.closed (sym stop ∙ c) z;
      })

  pub push-length :
      (r : Req) (q u : Queue Req Resp)
      → Queue.next answer n (Queue.push_request r) q ≡ some u
      → (u.stop ≡ q.stop) × (length u.request_queue ≡ length q.request_queue + 1)
  unfolding Queue.next push
  push-length r q u e = ground (arith, length-append q.request_queue (r ∷ []))

  pub notify_at-IsRoused :
      (i : ℕ) (u : Stand) (s t : Threads Req Resp)
      → i < n
      → s.stands i ≡ u
      → notify_at answer n i u s ≡ some t
      → Roused answer n s
      → Roused answer n t
  unfolding notify_at
  notify_at-IsRoused i asleep s t h a e d = elim (Bool-cases (ltb 0 s.notifications)) [
    | inl c ↦
        let fewer = sum_below-move is_asleep n i woken s.stands h in
        let more = sum_below-move is_woken n i woken s.stands h in
        let was = ap is_asleep a in
        let was2 = ap is_woken a in
        subst (Roused answer n) (some-injective _ _ (rw c at e)) (record {
          reached = d.reached;
          matched =
              λ l. ground (arith, c, fewer, more, was, was2, d.matched (omega (arith, fewer, was)));
          closed = λ z y. omega (arith, fewer, was, d.closed z y);
        })
    | inr c ↦ let f : none ≡ some t = rw c at e in cc
  ]
  notify_at-IsRoused i _ s t h a e d = cc

  pub wake_at-IsRoused :
      (i : ℕ) (u : Stand) (s t : Threads Req Resp)
      → i < n
      → s.stands i ≡ u
      → wake_at answer n i u s ≡ some t
      → Roused answer n s
      → Roused answer n t
  unfolding wake_at
  wake_at-IsRoused i asleep s t h a e d =
      let fewer = sum_below-move is_asleep n i woken s.stands h in
      let more = sum_below-move is_woken n i woken s.stands h in
      let was = ap is_asleep a in
      let was2 = ap is_woken a in
      subst (Roused answer n) (some-injective _ _ e) (record {
        reached = d.reached;
        matched = λ l. omega (arith, fewer, more, was, was2, d.matched (omega (arith, fewer, was)));
        closed = λ z y. omega (arith, fewer, was, d.closed z y);
      })
  wake_at-IsRoused i _ s t h a e d = cc

  -- A worker that is not in `wait` leaves the queue of the requests as it is.
  pub busy-length :
      (i : ℕ) (w : Worker Req) (q u : Queue Req Resp)
      → q.workers i ≡ w
      → w ≢ waiting
      → turn answer i w q ≡ some u
      → length u.request_queue ≡ length q.request_queue
  unfolding turn respond
  busy-length i waiting q u k h e = absurd (h refl)
  busy-length i (running r) q u k h e = elim (Option-cases q.popping) [
    | inl p ↦ ground arith
    | inr (taken, p) ↦ ground arith
  ]
  busy-length i notifying q u k h e = ground arith
  busy-length i stopped q u k h e = cc

  pub busy-IsRoused :
      (i : ℕ) (w : Worker Req) (s t : Threads Req Resp)
      → s.queue.workers i ≡ w
      → w ≢ waiting
      → over_queue answer n s (Queue.next answer n (Queue.work_on i) s.queue) ≡ some t
      → Roused answer n s
      → Roused answer n t
  busy-IsRoused i w s t k h e d =
      over_queue-IsRoused _ s t
        (λ q f.
          let (lt, turned) = worker-turn answer n i s.queue q f in
          let (stop, popped, pushed, popping) =
            turn-keeps answer n i (s.queue.workers i) s.queue q turned in
          (
            Queue.later d.reached (Queue.work_on i) f,
            stop,
            busy-length i (s.queue.workers i) s.queue q refl (λ z. h (sym k ∙ z)) turned,
          ))
        e d

  pub work_at-IsRoused :
      (i : ℕ) (u : Stand) (w : Worker Req) (s t : Threads Req Resp)
      → i < n
      → s.stands i ≡ u
      → s.queue.workers i ≡ w
      → work_at answer n i u w s ≡ some t
      → Roused answer n s
      → Roused answer n t
  unfolding work_at
  work_at-IsRoused i asleep w s t h a k e d = cc
  work_at-IsRoused i up waiting s t h a k e d = subst (Roused answer n) (some-injective _ _ e) (
      look-IsRoused answer n i (Queue.next answer n (Queue.work_on i) s.queue) s h (λ z. cc) k refl
        d)
  work_at-IsRoused i woken waiting s t h a k e d = subst (Roused answer n) (some-injective _ _ e) (
      look-IsRoused answer n i (Queue.next answer n (Queue.work_on i) s.queue) s h (λ z. cc) k refl
        d)
  work_at-IsRoused i up (running r) s t h a k e d = busy-IsRoused i (running r) s t k (λ z. cc) e d
  work_at-IsRoused i woken (running r) s t h a k e d =
      busy-IsRoused i (running r) s t k (λ z. cc) e d
  work_at-IsRoused i up notifying s t h a k e d = busy-IsRoused i notifying s t k (λ z. cc) e d
  work_at-IsRoused i woken notifying s t h a k e d = busy-IsRoused i notifying s t k (λ z. cc) e d
  work_at-IsRoused i up stopped s t h a k e d = busy-IsRoused i stopped s t k (λ z. cc) e d
  work_at-IsRoused i woken stopped s t h a k e d = busy-IsRoused i stopped s t k (λ z. cc) e d

  pub pop-length :
      (p : Option (List Resp)) (q u : Queue Req Resp)
      → pop answer p q ≡ some u
      → (u.stop ≡ q.stop) × (length u.request_queue ≡ length q.request_queue)
  unfolding pop
  pop-length none q u e = ground arith
  pop-length (some taken) q u e = cc

  pub consume-length :
      (p : Option (List Resp)) (q u : Queue Req Resp)
      → consume answer p q ≡ some u
      → (u.stop ≡ q.stop) × (length u.request_queue ≡ length q.request_queue)
  unfolding consume
  consume-length none q u e = cc
  consume-length (some taken) q u e = ground arith

  pub allowed :
      (i : ℕ) (o : Option (Threads Req Resp)) (t : Threads Req Resp)
      → (if ltb i n then o else none) ≡ some t
      → (i < n) × (o ≡ some t)
  allowed i o t e = ground arith
