-- ===== src/RateLimit/Contract.antt =====
-- crates/pinveil-server/src/ratelimit.rs: what `allow` answers, and that its state stays bounded.
use pinveil.Base.{
  ℕ, ◌+◌, ◌≤◌, ◌≡◌, refl, inl, inr, Bool, not, Option, none, some, leb, length, Eq, Bool-cases,
  Option-cases, arith,
}
use pinveil.Base.Dict
use pinveil.Base.Dict.{Dict, Distinct, AllV}
use pinveil.RateLimit.{
  Bucket, Window, Inner, Limits, limit_of, expire_from, count_request, allow, key_equality,
}
use pinveil.RateLimit.Windows.{
  Paired, Ordered, open_at, Expired, expire_from-Expired, Paired-push, Paired-update, Ordered-push,
  Ordered-later, length-Paired,
}

abbrev pub answer_for : Limits → Bucket → Option Window → ℕ → Bool
answer_for l b (some w) open_windows = not (leb (limit_of l b) w.count)
answer_for l b none open_windows = not (leb l.max_keys open_windows)

module _ {A : Type 0} ⦃e : Eq A⦄ where
  -- The state after calls up to time `latest`.
  pub record Inv (l : Limits) (latest : ℕ) (s : Inner A) : Type 0 where
    pub paired : Paired s.expiry s.windows
    pub ordered : Ordered 0 s.expiry latest
    pub distinct : Distinct s.windows
    pub capped : length s.windows ≤ l.max_keys

  -- The counters and the queue entries are both at most `max_tracked_keys`.
  pub Inv-bounded :
      (l : Limits) (latest : ℕ) (s : Inner A)
      → Inv l latest s
      → (length s.windows ≤ l.max_keys) × (length s.expiry ≤ l.max_keys)
  Inv-bounded l latest s v =
      (v.capped, omega (arith, v.capped, length-Paired s.expiry s.windows v.distinct v.paired))

  module _ (l : Limits) (b : Bucket) (a : A) (now latest : ℕ) where
    count_request-Inv :
        (s : Inner A) → latest ≤ now → Inv l latest s → Inv l now (count_request l b a now s).1
    unfolding count_request
    count_request-Inv s later v = elim (Option-cases (Dict.get (b, a) s.windows)) [
      | inl new ↦ elim (Bool-cases (leb l.max_keys (length s.windows))) [
        | inl full ↦ rw (new, count_request, full) kept
        | inr room ↦
            let w : Window = record { started = now; count = 1 } in
            let same = Dict.remove_absent (b, a) s.windows new in
            rw (new, count_request, room)
              (record {
                paired =
                    unfold Dict.insert in
                    rw same (Paired-push s.expiry s.windows (b, a) w v.paired new);
                ordered = Ordered-push 0 latest now s.expiry (b, a) later v.ordered;
                distinct = Dict.insert-Distinct (b, a) w s.windows v.distinct;
                capped = unfold Dict.insert in rw same (ground (arith, room));
              })
      ]
      | inr (w, known) ↦ elim (Bool-cases (leb (limit_of l b) w.count)) [
        | inl spent ↦ rw (known, count_request, spent) kept
        | inr more ↦
            let w' : Window = record w { count = w.count + 1 } in
            rw (known, count_request, more)
              (record {
                paired = Paired-update s.expiry s.windows (b, a) w w' v.paired known refl;
                ordered = Ordered-later 0 latest now s.expiry later v.ordered;
                distinct = Dict.insert-Distinct (b, a) w' s.windows v.distinct;
                capped =
                    unfold Dict.insert in
                    omega (arith, v.capped, Dict.length-remove (b, a) s.windows w known);
              })
      ]
    ]
      where
        kept : Inv l now s
        kept = record {
          paired = v.paired;
          ordered = Ordered-later 0 latest now s.expiry later v.ordered;
          distinct = v.distinct;
          capped = v.capped;
        }

    module _ (s : Inner A) where
      abbrev pub cleaned : Inner A
      cleaned = expire_from l.window now s.expiry s.windows

      pub cleaned-Expired : Inv l latest s → Expired l.window now 0 latest s.windows cleaned
      cleaned-Expired v =
          expire_from-Expired l.window now 0 latest s.expiry s.windows v.ordered v.paired v.distinct

      cleaned-Inv : Inv l latest s → Inv l latest cleaned
      cleaned-Inv v =
          let x = cleaned-Expired v in
          record {
            paired = x.paired;
            ordered = x.ordered;
            distinct = x.distinct;
            capped = omega (arith, x.fewer, v.capped);
          }

      -- allow keeps the map and the expiry queue paired, the queue in time order, the keys
      -- distinct and the table within its cap, if the clock does not run backwards.
      pub allow-Inv : latest ≤ now → Inv l latest s → Inv l now (allow l b a now s).1
      unfolding allow
      allow-Inv later v = count_request-Inv cleaned later (cleaned-Inv v)

      -- On a limiter that keeps its invariant, allow lets a request through exactly when the
      -- open window of its key has room or, with no open window, when the table of open windows
      -- has a free place.
      pub answer-allow :
          Inv l latest s
          → (allow l b a now s).0
            ≡ answer_for l b
                (open_at l.window now (Dict.get (b, a) s.windows))
                (length cleaned.windows)
      unfolding allow count_request
      answer-allow v =
          ground
            (arith, (cleaned-Expired v).rows (b, a), Option-cases (Dict.get (b, a) cleaned.windows))
