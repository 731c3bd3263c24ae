-- ===== src/Async/Wakeup/Roused.antt =====
-- What holds of the sleepers of code/util/async_queue.h, and the tests of their predicate.
use lab_cpp.Base.{
  ℕ, ◌+◌, ◌≤◌, ◌<◌, ◌≡◌, ◌≢◌, ◌⊎◌, refl, sym, ◌∙◌, Bool, true, false, Option, none, some, List, [],
  ◌∷◌, length, arith,
}
use lab_cpp.Base.Threads.{sum_below, sum_below-move}
use lab_cpp.Async.Queue.{
  Worker, waiting, running, notifying, stopped, Queue, construct, push, turn, fetch, respond, pop,
  consume,
}
use lab_cpp.Async.Queue
use lab_cpp.Async.Work.{worker-turn, turn-keeps}
use lab_cpp.Async.Wakeup.{Stand, up, asleep, woken, is_asleep, is_woken, Threads, rouse, look}

pub is_woken-le-one : (t : Stand) → is_woken t ≤ 1
is_woken-le-one up = omega arith
is_woken-le-one asleep = omega arith
is_woken-le-one woken = omega arith

pub is_asleep-zero : (t : Stand) → t ≢ asleep → is_asleep t ≡ 0
is_asleep-zero up h = refl
is_asleep-zero asleep h = absurd (h refl)
is_asleep-zero woken h = refl

pub rouse-awake : (t : Stand) → is_asleep (rouse t) ≡ 0
rouse-awake up = refl
rouse-awake asleep = refl
rouse-awake woken = refl

module _ {Req Resp : Type 0} (answer : Req → Resp) (n : ℕ) where
  abbrev pub asleeps : (ℕ → Stand) → ℕ
  asleeps stands = sum_below is_asleep n stands

  abbrev pub wokens : (ℕ → Stand) → ℕ
  wokens stands = sum_below is_woken n stands

  -- While a worker sleeps, each request in the queue has a wake-up on its way; and none sleeps behind
  -- the destructor's `notify_all`.
  pub record IsRoused (q : Queue Req Resp) (stands : ℕ → Stand) (notifications : ℕ)
      (stopping : Bool) : Type 0 where
    pub reached : Queue.Reach answer n q
    pub matched : 0 < asleeps stands → length q.request_queue ≤ notifications + wokens stands
    pub closed : q.stop ≡ true → stopping ≡ false → asleeps stands ≡ 0

  abbrev pub Roused : Threads Req Resp → Type 0
  Roused s = IsRoused s.queue s.stands s.notifications s.stopping

  -- What a step of a worker does to the queue of the requests.
  pub fetch-length :
      (i : ℕ) (stop : Bool) (reqs : List Req) (q r : Queue Req Resp)
      → q.request_queue ≡ reqs
      → fetch answer i stop reqs q ≡ some r
      → (length r.request_queue + 1 ≡ length q.request_queue) ⊎ (length r.request_queue ≡ 0)
  unfolding fetch
  fetch-length i false [] q r k e = cc
  fetch-length i true [] q r k e = ground arith
  fetch-length i stop (task ∷ rest) q r k e = ground arith

  pub fetch-none :
      (i : ℕ) (stop : Bool) (reqs : List Req) (q : Queue Req Resp)
      → fetch answer i stop reqs q ≡ none
      → (stop ≡ false) × (reqs ≡ [])
  unfolding fetch
  fetch-none i false [] q e = (refl, refl)
  fetch-none i true [] q e = cc
  fetch-none i stop (task ∷ rest) q e = cc

  pub waiting-turn :
      (i : ℕ) (q : Queue Req Resp)
      → i < n
      → q.workers i ≡ waiting
      → Queue.next answer n (Queue.work_on i) q ≡ fetch answer i q.stop q.request_queue q
  unfolding Queue.next turn
  waiting-turn i q h e = ground arith

  pub look-IsRoused :
      (i : ℕ) (o : Option (Queue Req Resp)) (s : Threads Req Resp)
      → i < n
      → s.stands i ≢ asleep
      → s.queue.workers i ≡ waiting
      → Queue.next answer n (Queue.work_on i) s.queue ≡ o
      → Roused s
      → Roused (look answer n i o s)
  unfolding look
  look-IsRoused i none s h a e t d =
      let (open_pool, empty) =
        fetch-none i s.queue.stop s.queue.request_queue s.queue
          (sym (waiting-turn i s.queue h e) ∙ t) in
      record {
        reached = d.reached;
        matched = λ l. rw empty (omega arith);
        closed = λ c. absurd (cc);
      }
  look-IsRoused i (some q) s h a e t d =
      let f = sym (waiting-turn i s.queue h e) ∙ t in
      let (lt, turned) = worker-turn answer n i s.queue q t in
      let (stop, popped, pushed, popping) =
        turn-keeps answer n i (s.queue.workers i) s.queue q turned in
      let none_less = is_asleep-zero (s.stands i) a in
      let fewer = sum_below-move is_asleep n i up s.stands h in
      let woke = sum_below-move is_woken n i up s.stands h in
      record {
        reached = Queue.later d.reached (Queue.work_on i) t;
        matched = λ l. omega (
          arith,
          fewer,
          woke,
          none_less,
          is_woken-le-one (s.stands i),
          fetch-length i s.queue.stop s.queue.request_queue s.queue q refl f,
          d.matched (omega (arith, l, fewer, none_less)),
        );
        closed = λ c z. omega (arith, fewer, none_less, d.closed (sym stop ∙ c) z);
      }
