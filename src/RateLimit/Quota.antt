-- ===== src/RateLimit/Quota.antt =====
-- crates/pinveil-server/src/ratelimit.rs: how many requests of one client one window lets through.
use pinveil.Base.{
  ℕ, ◌+◌, ◌-◌, ◌≤◌, ◌<◌, ◌&&◌, ◌≡◌, ◌∙◌, ap, inl, inr, Bool, false, some, List, [], ◌∷◌,
  if◌then◌else◌, Eq, Bool-cases, Option-cases, arith,
}
use pinveil.Base.Dict
use pinveil.RateLimit.{
  Bucket, Window, Inner, Limits, limit_of, count_request, allow, key_equality, key_eq, key_eq_iff,
}
use pinveil.RateLimit.Contract.{Inv, cleaned, cleaned-Expired, allow-Inv}

module _ {A : Type 0} ⦃e : Eq A⦄ where
  -- One request seen from the open window of a key.
  abbrev pub bumped : Bucket × A → Window → Bool → Bucket × A → Window
  bumped k w answer j = if answer && key_eq j k then record w { count = w.count + 1 } else w

  started-bumped :
      (k : Bucket × A) (w : Window) (answer : Bool) (j : Bucket × A)
      → (bumped k w answer j).started ≡ w.started
  started-bumped k w answer j = ground arith

  count_bumped :
      (k : Bucket × A) (w : Window) (answer : Bool) (j : Bucket × A) (n limit : ℕ)
      → (if answer && key_eq j k then w.count + 1 else 0) ≤ limit
      → n ≤ limit - (bumped k w answer j).count
      → (if answer && key_eq j k then 1 else 0) + n ≤ limit - w.count
  count_bumped k w answer j n limit room h = ground (arith, room, h)

  -- The times of a run do not decrease and stay below a bound.
  abbrev pub Within : ℕ → List (Bucket × A × ℕ) → ℕ → Type 0
  Within latest [] end = Unit
  Within latest ((b, a, t) ∷ rs) end = (latest ≤ t) × (t < end) × Within t rs end

module _ {A : Type 0} ⦃e : Eq A⦄ (l : Limits) where
  -- How many requests of one key a run lets through.
  unfoldable pub granted : Bucket × A → List (Bucket × A × ℕ) → Inner A → ℕ
  granted k [] s = 0
  granted k ((b, a, t) ∷ rs) s =
      let (answer, s') = allow l b a t s in
      (if answer && key_eq (b, a) k then 1 else 0) + granted k rs s'

  count_request-others :
      (b : Bucket) (a : A) (now : ℕ) (s : Inner A) (k : Bucket × A)
      → key_eq (b, a) k ≡ false
      → Dict.get k (count_request l b a now s).1.windows ≡ Dict.get k s.windows
  unfolding count_request
  count_request-others b a now s k other = elim (Option-cases (Dict.get (b, a) s.windows)) [
    | inl new ↦ ground (
      arith,
      new,
      other,
      Dict.get-insert (b, a) k (record { started = now; count = 1 }) s.windows,
    )
    | inr (w, known) ↦
        ground (
          arith,
          known,
          other,
          Dict.get-insert (b, a) k (record w { count = w.count + 1 }) s.windows,
        )
  ]

  count_request-window :
      (b : Bucket) (a : A) (now : ℕ) (s : Inner A) (k : Bucket × A) (w : Window)
      → Dict.get k s.windows ≡ some w
      → let out = count_request l b a now s in
        (Dict.get k out.1.windows ≡ some (bumped k w out.0 (b, a)))
        × ((if out.0 && key_eq (b, a) k then w.count + 1 else 0) ≤ limit_of l k.0)
  count_request-window b a now s k w held = elim (Bool-cases (key_eq (b, a) k)) [
    | inl same ↦
        let eq = (key_eq_iff (b, a) k).0 same in
        let here : Dict.get (b, a) s.windows ≡ some w = ap (λ j. Dict.get j s.windows) eq ∙ held in
        let lim : limit_of l b ≡ limit_of l k.0 = ap (λ (j : Bucket × A). limit_of l j.0) eq in
        (
          unfold count_request in
              ground (
                arith,
                here,
                same,
                lim,
                Dict.get-insert (b, a) k (record w { count = w.count + 1 }) s.windows,
              ),
          unfold count_request in ground (arith, here, same, lim),
        )
    | inr other ↦
        (ground (arith, other, held, count_request-others b a now s k other), ground (arith, other))
  ]

  allow-window :
      (b : Bucket) (a : A) (now latest : ℕ) (s : Inner A) (k : Bucket × A) (w : Window)
      → Inv l latest s
      → Dict.get k s.windows ≡ some w
      → now < w.started + l.window
      → let out = allow l b a now s in
        (Dict.get k out.1.windows ≡ some (bumped k w out.0 (b, a)))
        × ((if out.0 && key_eq (b, a) k then w.count + 1 else 0) ≤ limit_of l k.0)
  unfolding allow
  allow-window b a now latest s k w v held open_now =
      count_request-window b a now (cleaned l b a now latest s) k w
        (ground (arith, held, (cleaned-Expired l b a now latest s v).rows k))

  -- On a limiter that keeps its invariant, at times that do not decrease: while the window of a
  -- client is open, no more of its requests are let through than its count leaves of the limit
  -- of its bucket, so none once the count has reached the limit, whatever other clients send in
  -- between.
  pub granted-le :
      (k : Bucket × A) (rs : List (Bucket × A × ℕ)) (latest : ℕ) (s : Inner A) (w : Window)
      → Inv l latest s
      → Dict.get k s.windows ≡ some w
      → Within latest rs (w.started + l.window)
      → granted k rs s ≤ limit_of l k.0 - w.count
  unfolding granted
  granted-le k [] latest s w v held times = omega arith
  granted-le k ((b, a, t) ∷ rs) latest s w v held times =
      let out = allow l b a t s in
      let w' = bumped k w out.0 (b, a) in
      let now_held = allow-window b a t latest s k w v held times.1 in
      let times' : Within t rs (w'.started + l.window) =
        rw (started-bumped k w out.0 (b, a)) times.2 in
      let rest =
        granted-le k rs t out.1 w' (allow-Inv l b a t latest s times.0 v) now_held.0 times' in
      count_bumped k w out.0 (b, a) (granted k rs out.1) (limit_of l k.0) now_held.1 rest
