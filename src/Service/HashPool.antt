-- ===== src/Service/HashPool.antt =====
-- crates/pinveil-server/src/service.rs: `HashPool`, as the steps that its jobs take in any order.
-- tokio's semaphore is third-party code, so it is a parameter with the law that its permits count.
pub mod Progress
use pinveil.Base.{ℕ, ◌+◌, ◌-◌, ◌≤◌, ◌<◌, ◌≡◌, refl, List, [], ◌∷◌, ◌++◌, Option, some, arith}

-- A semaphore: its free permits, a permit taken when one is free, and a permit given back.
pub record Semaphore (P : Type 0) : Type 0 where
  pub free : P → ℕ
  pub acquire : P → Option P
  pub release : P → P

pub record Counts {P : Type 0} (sem : Semaphore P) : Type 0 where
  pub takes_one : (p p' : P) → sem.acquire p ≡ some p' → sem.free p ≡ sem.free p' + 1
  pub gives_one : (p : P) → sem.free (sem.release p) ≡ sem.free p + 1

-- Where a call of `run` is: counted although the queue was full, counted and waiting for a permit,
-- still counted with its permit, or working.
pub data Job : Type 0 where
  refused queued granted running : Job

pub record Limits : Type 0 where
  pub concurrency : ℕ
  pub max_waiting : ℕ

-- The counter of waiting calls is a `usize`: it counts live calls, of which memory holds fewer
-- than 2^64.
pub record Pool (P : Type 0) : Type 0 where
  pub permits : P
  pub waiting : ℕ
  pub jobs : List Job

module _ {P : Type 0} (sem : Semaphore P) (l : Limits) where
  -- `fetch_add` and the test of what it returned; the guard's `fetch_sub` when a refused call
  -- returns, when a permit is there, or when the waiting future is dropped; the permit's return
  -- when the work is done.
  pub data Step : Pool P → Pool P → Type 0 where
    enter_free :
        (p : P) (n : ℕ) (js : List Job)
        → n < l.max_waiting
        → Step
            (record { permits = p; waiting = n; jobs = js })
            (record { permits = p; waiting = n + 1; jobs = queued ∷ js })
    enter_full :
        (p : P) (n : ℕ) (js : List Job)
        → l.max_waiting ≤ n
        → Step
            (record { permits = p; waiting = n; jobs = js })
            (record { permits = p; waiting = n + 1; jobs = refused ∷ js })
    leave_full :
        (p : P) (n : ℕ) (before after : List Job)
        → Step
            (record { permits = p; waiting = n; jobs = before ++ refused ∷ after })
            (record { permits = p; waiting = n - 1; jobs = before ++ after })
    drop_waiting :
        (p : P) (n : ℕ) (before after : List Job)
        → Step
            (record { permits = p; waiting = n; jobs = before ++ queued ∷ after })
            (record { permits = p; waiting = n - 1; jobs = before ++ after })
    grant :
        (p p' : P) (n : ℕ) (before after : List Job)
        → sem.acquire p ≡ some p'
        → Step
            (record { permits = p; waiting = n; jobs = before ++ queued ∷ after })
            (record { permits = p'; waiting = n; jobs = before ++ granted ∷ after })
    start :
        (p : P) (n : ℕ) (before after : List Job)
        → Step
            (record { permits = p; waiting = n; jobs = before ++ granted ∷ after })
            (record { permits = p; waiting = n - 1; jobs = before ++ running ∷ after })
    finish :
        (p : P) (n : ℕ) (before after : List Job)
        → Step
            (record { permits = p; waiting = n; jobs = before ++ running ∷ after })
            (record { permits = sem.release p; waiting = n; jobs = before ++ after })

  -- The pools that `HashPool::new` and any steps after it lead to.
  pub data Reachable : Pool P → Type 0 where
    fresh :
        (p : P)
        → sem.free p ≡ l.concurrency
        → Reachable (record { permits = p; waiting = 0; jobs = [] })
    after_step : (s t : Pool P) → Reachable s → Step s t → Reachable t

-- A permit is held by a call that works or is about to.
unfoldable pub is_running : Job → ℕ
is_running running = 1
is_running granted = 1
is_running _ = 0

unfoldable pub is_queued : Job → ℕ
is_queued queued = 1
is_queued granted = 1
is_queued _ = 0

unfoldable pub is_counted : Job → ℕ
is_counted running = 0
is_counted _ = 1

unfoldable pub count : (Job → ℕ) → List Job → ℕ
count f [] = 0
count f (j ∷ js) = f j + count f js

count-middle :
    (f : Job → ℕ) (before : List Job) (j : Job) (after : List Job)
    → count f (before ++ j ∷ after) ≡ f j + count f (before ++ after)
unfolding count
count-middle f [] j after = refl
count-middle f (i ∷ before) j after = ground (arith, count-middle f before j after)

queued_le_counted : (js : List Job) → count is_queued js ≤ count is_counted js
unfolding count is_queued is_counted
queued_le_counted [] = omega arith
queued_le_counted (refused ∷ js) = omega (arith, queued_le_counted js)
queued_le_counted (queued ∷ js) = omega (arith, queued_le_counted js)
queued_le_counted (granted ∷ js) = omega (arith, queued_le_counted js)
queued_le_counted (running ∷ js) = omega (arith, queued_le_counted js)

module _ {P : Type 0} (sem : Semaphore P) (l : Limits) (law : Counts sem) where
  -- The counter is the number of calls not yet working, the permits that are not free are those of
  -- the working calls, and the queue is within its bound.
  pub record Inv (s : Pool P) : Type 0 where
    pub counter : s.waiting ≡ count is_counted s.jobs
    pub permits : sem.free s.permits + count is_running s.jobs ≡ l.concurrency
    pub bounded : count is_queued s.jobs ≤ l.max_waiting

  pub Step-Inv : (s t : Pool P) → Step sem l s t → Inv s → Inv t
  unfolding count is_running is_queued is_counted
  Step-Inv _ _ (enter_free p n js room) v = record {
    counter = omega (arith, v.counter);
    permits = omega (arith, v.permits);
    bounded = omega (arith, v.counter, queued_le_counted js, room);
  }
  Step-Inv _ _ (enter_full p n js full) v = record {
    counter = omega (arith, v.counter);
    permits = omega (arith, v.permits);
    bounded = omega (arith, v.bounded);
  }
  Step-Inv _ _ (leave_full p n before after) v = record {
    counter = omega (arith, v.counter, count-middle is_counted before refused after);
    permits = omega (arith, v.permits, count-middle is_running before refused after);
    bounded = omega (arith, v.bounded, count-middle is_queued before refused after);
  }
  Step-Inv _ _ (drop_waiting p n before after) v = record {
    counter = omega (arith, v.counter, count-middle is_counted before queued after);
    permits = omega (arith, v.permits, count-middle is_running before queued after);
    bounded = omega (arith, v.bounded, count-middle is_queued before queued after);
  }
  Step-Inv _ _ (grant p p' n before after got) v = record {
    counter = omega (
      arith,
      v.counter,
      count-middle is_counted before queued after,
      count-middle is_counted before granted after,
    );
    permits = omega (
      arith,
      v.permits,
      law.takes_one p p' got,
      count-middle is_running before queued after,
      count-middle is_running before granted after,
    );
    bounded = omega (
      arith,
      v.bounded,
      count-middle is_queued before queued after,
      count-middle is_queued before granted after,
    );
  }
  Step-Inv _ _ (start p n before after) v = record {
    counter = omega (
      arith,
      v.counter,
      count-middle is_counted before granted after,
      count-middle is_counted before running after,
    );
    permits = omega (
      arith,
      v.permits,
      count-middle is_running before granted after,
      count-middle is_running before running after,
    );
    bounded = omega (
      arith,
      v.bounded,
      count-middle is_queued before granted after,
      count-middle is_queued before running after,
    );
  }
  Step-Inv _ _ (finish p n before after) v = record {
    counter = omega (arith, v.counter, count-middle is_counted before running after);
    permits =
        omega (arith, v.permits, law.gives_one p, count-middle is_running before running after);
    bounded = omega (arith, v.bounded, count-middle is_queued before running after);
  }

  Reachable-Inv : (s : Pool P) → Reachable sem l s → Inv s
  unfolding count
  Reachable-Inv _ (fresh p all_free) = record {
    counter = refl;
    permits = omega (arith, all_free);
    bounded = omega arith;
  }
  Reachable-Inv _ (after_step s t before taken) = Step-Inv s t taken (Reachable-Inv s before)

  -- In every order of arrivals, cancellations, starts and ends of calls, at most concurrency
  -- calls hold a permit, at most max_waiting calls are in the queue, and the counter is the
  -- number of calls that do not work yet, where the permits of the semaphore count.
  pub Reachable-bounded :
      (s : Pool P)
      → Reachable sem l s
      → (count is_running s.jobs ≤ l.concurrency)
        × ((count is_queued s.jobs ≤ l.max_waiting) × (s.waiting ≡ count is_counted s.jobs))
  Reachable-bounded s reach =
      let v = Reachable-Inv s reach in (omega (arith, v.permits), (v.bounded, v.counter))
