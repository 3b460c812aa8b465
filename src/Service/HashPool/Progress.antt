-- ===== src/Service/HashPool/Progress.antt =====
-- crates/pinveil-server/src/service.rs: `HashPool` empties when no more calls enter.
use pinveil.Base.{
  ℕ, suc, ◌+◌, ◌-◌, ◌*◌, ◌≤◌, ◌<◌, ◌≡◌, refl, sym, subst, ap, ◌⊎◌, inl, inr, List, [], ◌∷◌, ◌++◌,
  some, length, ltb, Bool-cases, arith,
}
use pinveil.Service.HashPool.{
  Semaphore, Counts, Job, refused, queued, granted, running, Limits, Pool, Step, enter_free,
  enter_full, leave_full, drop_waiting, grant, start, finish, Reachable, after_step, count,
  count-middle, is_running, is_counted, Inv, Reachable-Inv,
}

-- A free permit can be taken.
pub record Grants {P : Type 0} (sem : Semaphore P) : Type 0 where
  pub grants : (p : P) → 0 < sem.free p → (p' : P) × (sem.acquire p ≡ some p')

-- How many steps a call has still to take.
unfoldable pub steps_left : Job → ℕ
steps_left queued = 3
steps_left granted = 2
steps_left _ = 1

steps_left-le : (js : List Job) → count steps_left js ≤ 3 * length js
unfolding count steps_left
steps_left-le [] = omega arith
steps_left-le (refused ∷ js) = omega (arith, steps_left-le js)
steps_left-le (queued ∷ js) = omega (arith, steps_left-le js)
steps_left-le (granted ∷ js) = omega (arith, steps_left-le js)
steps_left-le (running ∷ js) = omega (arith, steps_left-le js)

length-middle :
    (before : List Job) (j : Job) (after : List Job)
    → length (before ++ j ∷ after) ≡ suc (length (before ++ after))
length-middle [] j after = refl
length-middle (i ∷ before) j after = ap suc (length-middle before j after)

-- A place in a list of a call that holds a permit.
Holder : List Job → Type 0
Holder js =
    (before : List Job) × (j : Job) × (after : List Job) × (js ≡ before ++ j ∷ after)
    × ((j ≡ running) ⊎ (j ≡ granted))

later : (i : Job) (js : List Job) → Holder js → Holder (i ∷ js)
unfolding Holder
later i js (before, j, after, e, k) = (i ∷ before, j, after, ap (λ r. i ∷ r) e, k)

holder : (js : List Job) → 0 < count is_running js → Holder js
unfolding count is_running Holder
holder [] h = ground (arith, h)
holder (running ∷ js) h = ([], running, js, refl, inl refl)
holder (granted ∷ js) h = ([], granted, js, refl, inr refl)
holder (queued ∷ js) h = later queued js (holder js (omega (arith, h)))
holder (refused ∷ js) h = later refused js (holder js (omega (arith, h)))

module _ {P : Type 0} (sem : Semaphore P) (l : Limits) where
  -- A number of steps in which no call enters.
  pub data Leaving : ℕ → Pool P → Pool P → Type 0 where
    none_left : (s : Pool P) → Leaving 0 s s
    one_more :
        (n : ℕ) (s t u : Pool P)
        → Leaving n s t
        → Step sem l t u
        → length u.jobs ≤ length t.jobs
        → Leaving (suc n) s u

  -- A step that is possible and in which no call enters.
  pub Next : Pool P → Type 0
  Next s = (t : Pool P) × Step sem l s t × (length t.jobs ≤ length s.jobs)

  pub record IsIdle (s : Pool P) : Type 0 where
    pub no_jobs : s.jobs ≡ []
    pub none_waits : s.waiting ≡ 0
    pub all_free : sem.free s.permits ≡ l.concurrency

  Step-less :
      (s t : Pool P)
      → Step sem l s t
      → length t.jobs ≤ length s.jobs
      → count steps_left t.jobs < count steps_left s.jobs
  unfolding count steps_left
  Step-less _ _ (enter_free p n js room) h = omega (arith, h)
  Step-less _ _ (enter_full p n js full) h = omega (arith, h)
  Step-less _ _ (leave_full p n before after) h =
      omega (arith, count-middle steps_left before refused after)
  Step-less _ _ (drop_waiting p n before after) h =
      omega (arith, count-middle steps_left before queued after)
  Step-less _ _ (grant p p' n before after got) h = omega (
    arith,
    count-middle steps_left before queued after,
    count-middle steps_left before granted after,
  )
  Step-less _ _ (start p n before after) h = omega (
    arith,
    count-middle steps_left before granted after,
    count-middle steps_left before running after,
  )
  Step-less _ _ (finish p n before after) h =
      omega (arith, count-middle steps_left before running after)

  Leaving-bounded :
      (n : ℕ) (s t : Pool P) → Leaving n s t → n + count steps_left t.jobs ≤ count steps_left s.jobs
  Leaving-bounded _ _ _ (none_left s) = omega arith
  Leaving-bounded _ _ _ (one_more n s t u run step less) =
      omega (arith, Leaving-bounded n s t run, Step-less t u step less)

  Leaving-Reachable : (n : ℕ) (s t : Pool P) → Leaving n s t → Reachable sem l s → Reachable sem l t
  Leaving-Reachable _ _ _ (none_left s) reach = reach
  Leaving-Reachable _ _ _ (one_more n s t u run step less) reach =
      after_step t u (Leaving-Reachable n s t run reach) step

  moved :
      (p : P) (n : ℕ) (before : List Job) (j : Job) (after : List Job)
      → (j ≡ running) ⊎ (j ≡ granted)
      → Next (record { permits = p; waiting = n; jobs = before ++ j ∷ after })
  unfolding Next
  moved p n before j after (inl e) =
      subst (λ i. Next (record { permits = p; waiting = n; jobs = before ++ i ∷ after })) (sym e)
        (
          record { permits = sem.release p; waiting = n; jobs = before ++ after },
          finish p n before after,
          omega (arith, length-middle before running after),
        )
  moved p n before j after (inr e) =
      subst (λ i. Next (record { permits = p; waiting = n; jobs = before ++ i ∷ after })) (sym e)
        (
          record { permits = p; waiting = n - 1; jobs = before ++ running ∷ after },
          start p n before after,
          omega (arith, length-middle before running after, length-middle before granted after),
        )

  -- A call that holds a permit can go on.
  Holder-Next :
      (p : P) (n : ℕ) (js : List Job)
      → Holder js
      → Next (record { permits = p; waiting = n; jobs = js })
  unfolding Holder
  Holder-Next p n js (before, j, after, e, k) =
      subst (λ r. Next (record { permits = p; waiting = n; jobs = r })) (sym e)
        (moved p n before j after k)

module _ {P : Type 0} (sem : Semaphore P) (l : Limits) (law : Counts sem) (free : Grants sem) where
  progress :
      (p : P) (n : ℕ) (js : List Job)
      → Inv sem l law (record { permits = p; waiting = n; jobs = js })
      → 0 < l.concurrency
      → Next sem l (record { permits = p; waiting = n; jobs = js })
        ⊎ IsIdle sem l (record { permits = p; waiting = n; jobs = js })
  unfolding Next count is_running is_counted
  progress p n [] v some_permit =
      inr (record { no_jobs = refl; none_waits = v.counter; all_free = omega (arith, v.permits) })
  progress p n (refused ∷ js) v some_permit =
      inl (record { permits = p; waiting = n - 1; jobs = js }, leave_full p n [] js, omega arith)
  progress p n (granted ∷ js) v some_permit =
      inl (Holder-Next sem l p n (granted ∷ js) (holder (granted ∷ js) (omega arith)))
  progress p n (running ∷ js) v some_permit =
      inl (Holder-Next sem l p n (running ∷ js) (holder (running ∷ js) (omega arith)))
  progress p n (queued ∷ js) v some_permit = elim (Bool-cases (ltb 0 (sem.free p))) [
    | inl some_free ↦
        let (p', taken) = free.grants p (ground (arith, some_free)) in
        inl (
          record { permits = p'; waiting = n; jobs = granted ∷ js },
          grant p p' n [] js taken,
          omega arith,
        )
    | inr none_free ↦ inl (
        Holder-Next sem l p n (queued ∷ js)
          (holder (queued ∷ js) (ground (arith, none_free, v.permits, some_permit))))
  ]

  -- From a pool that calls have led to, once no more calls enter, at most three steps for each
  -- call are taken, in whatever order, and one can always be taken until no call is left, none
  -- counts as waiting and every permit is free, where there is a permit, permits count and a
  -- free one can be taken.
  pub Leaving-ends :
      (s t : Pool P) (n : ℕ)
      → 0 < l.concurrency
      → Reachable sem l s
      → Leaving sem l n s t
      → (n ≤ 3 * length s.jobs) × (Next sem l t ⊎ IsIdle sem l t)
  Leaving-ends s t n some_permit reach run = (
    omega (arith, Leaving-bounded sem l n s t run, steps_left-le s.jobs),
    progress t.permits t.waiting t.jobs
        (Reachable-Inv sem l law t (Leaving-Reachable sem l n s t run reach)) some_permit,
  )
