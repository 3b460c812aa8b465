-- ===== src/Tests/PoolRuns.antt =====
-- Runs of the hash pool.
use pinveil.Base.{
  ℕ, zero, suc, ◌+◌, ◌*◌, ◌≤◌, ◌<◌, ◌≡◌, ◌⊎◌, refl, [], ◌∷◌, Option, none, some, arith,
}
use pinveil.Service.HashPool.Progress.{Grants, none_left, one_more, Next, IsIdle, Leaving-ends}
use pinveil.Service.HashPool.{
  Semaphore, Counts, Limits, Pool, refused, queued, enter_free, enter_full, leave_full, grant,
  Reachable, fresh, after_step, count, is_running, is_queued, is_counted, granted,
  Reachable-bounded,
}

take_permit : ℕ → Option ℕ
take_permit zero = none
take_permit (suc n) = some n

abbrev counter : Semaphore ℕ
counter = record { free = λ n. n; acquire = take_permit; release = λ n. suc n }

counter-Counts : Counts counter
unfolding take_permit
counter-Counts = record { takes_one = takes; gives_one = λ n. omega arith }
  where
    takes : (n m : ℕ) → take_permit n ≡ some m → n ≡ m + 1
    takes zero m h = ground arith
    takes (suc n) m h = ground arith

abbrev narrow : Limits
narrow = record { concurrency = 1; max_waiting = 1 }

-- One call enters and gets the permit while a second one is refused.
abbrev crowded : Pool ℕ
crowded = record { permits = 0; waiting = 2; jobs = refused ∷ granted ∷ [] }

crowded-Reachable : Reachable counter narrow crowded
unfolding take_permit
crowded-Reachable =
    after_step (record { permits = 1; waiting = 2; jobs = refused ∷ queued ∷ [] }) crowded
      (after_step (record { permits = 1; waiting = 1; jobs = queued ∷ [] })
        (record { permits = 1; waiting = 2; jobs = refused ∷ queued ∷ [] })
        (after_step (record { permits = 1; waiting = 0; jobs = [] })
          (record { permits = 1; waiting = 1; jobs = queued ∷ [] }) (fresh 1 refl)
          (enter_free 1 0 [] (omega arith)))
        (enter_full 1 1 (queued ∷ []) (omega arith)))
      (grant 1 0 2 (refused ∷ []) [] refl)

Reachable-bounded_example :
    (count is_running crowded.jobs ≤ 1)
    × ((count is_queued crowded.jobs ≤ 1) × (2 ≡ count is_counted crowded.jobs))
Reachable-bounded_example =
    Reachable-bounded counter narrow counter-Counts crowded crowded-Reachable

counter-Grants : Grants counter
unfolding take_permit
counter-Grants = record { grants = gives }
  where
    gives : (n : ℕ) → 0 < n → (m : ℕ) × (take_permit n ≡ some m)
    gives zero h = ground (arith, h)
    gives (suc n) h = (n, refl)

-- The refused call has returned.
abbrev less_crowded : Pool ℕ
less_crowded = record { permits = 0; waiting = 1; jobs = granted ∷ [] }

Leaving-ends_example :
    (1 ≤ 3 * 2) × (Next counter narrow less_crowded ⊎ IsIdle counter narrow less_crowded)
Leaving-ends_example =
    Leaving-ends counter narrow counter-Counts counter-Grants crowded less_crowded 1 (omega arith)
      crowded-Reachable
      (one_more 0 crowded crowded less_crowded (none_left crowded)
        (leave_full 0 2 [] (granted ∷ [])) (omega arith))
