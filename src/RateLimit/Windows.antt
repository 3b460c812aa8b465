-- ===== src/RateLimit/Windows.antt =====
-- crates/pinveil-server/src/ratelimit.rs: the queue and the map hold the same windows.
use pinveil.Base.{
  ℕ, ◌+◌, ◌≤◌, ◌<◌, ◌≡◌, refl, ◌∙◌, inl, inr, false, Option, none, some, List, [], ◌∷◌, ◌++◌, ltb,
  length, if◌then◌else◌, Eq, Bool-cases, arith,
}
use pinveil.Base.Dict
use pinveil.Base.Dict.{Dict, Distinct}
use pinveil.RateLimit.{Bucket, Window, Inner, forget, expire_from, key_equality, key_eq, key_eq_iff}

-- A window that is still open.
abbrev pub open_at : ℕ → ℕ → Option Window → Option Window
open_at window now none = none
open_at window now (some w) = if ltb now (w.started + window) then some w else none

module _ {A : Type 0} ⦃e : Eq A⦄ where
  -- Each entry of the queue is the start of a window of the map, and no window has a second entry.
  abbrev pub Paired : List (ℕ × (Bucket × A)) → Dict (Bucket × A) Window → Type 0
  Paired [] m = m ≡ []
  Paired ((t, k) ∷ q) m =
      ((w : Window) × (Dict.get k m ≡ some w) × (w.started ≡ t)) × Paired q (Dict.remove k m)

  -- The starts do not decrease along the queue, and are between the bounds.
  abbrev pub Ordered : ℕ → List (ℕ × (Bucket × A)) → ℕ → Type 0
  Ordered low [] high = low ≤ high
  Ordered low ((t, k) ∷ q) high = (low ≤ t) × Ordered t q high

  -- With the front still open, so is every window.
  all_open :
      (window now low high : ℕ) (q : List (ℕ × (Bucket × A))) (m : Dict (Bucket × A) Window)
      (j : Bucket × A)
      → now < low + window
      → Ordered low q high
      → Paired q m
      → Dict.get j m ≡ open_at window now (Dict.get j m)
  unfolding Dict.get
  all_open window now low high [] m j h o p = rw p refl
  all_open window now low high ((t, k) ∷ q) m j h o p = ground (
    arith,
    p.0,
    key_eq_iff k j,
    Dict.get-remove k j m,
    all_open window now t high q (Dict.remove k m) j (omega (arith, o.0)) o.1 p.1,
  )

  forget-remove :
      (t : ℕ) (k : Bucket × A) (m : Dict (Bucket × A) Window) (w : Window)
      → Dict.get k m ≡ some w
      → w.started ≡ t
      → forget t k m ≡ Dict.remove k m
  unfolding forget
  forget-remove t k m w h s = ground arith

  Ordered-le : (low high : ℕ) (q : List (ℕ × (Bucket × A))) → Ordered low q high → low ≤ high
  Ordered-le low high [] o = o
  Ordered-le low high ((t, k) ∷ q) o = omega (arith, o.0, Ordered-le t high q o.1)

  Ordered-lower :
      (low t high : ℕ) (q : List (ℕ × (Bucket × A)))
      → low ≤ t
      → Ordered t q high
      → Ordered low q high
  Ordered-lower low t high [] h o = omega (arith, o)
  Ordered-lower low t high ((u, k) ∷ q) h o = (omega (arith, o.0), o.1)

  -- What the loop leaves: exactly the open windows, still paired and in order.
  pub record Expired (window now low high : ℕ) (m : Dict (Bucket × A) Window) (s : Inner A)
      : Type 0 where
    pub rows : (j : Bucket × A) → Dict.get j s.windows ≡ open_at window now (Dict.get j m)
    pub paired : Paired s.expiry s.windows
    pub ordered : Ordered low s.expiry high
    pub distinct : Distinct s.windows
    pub fewer : length s.windows ≤ length m

  all_open_nil :
      (window now : ℕ) (m : Dict (Bucket × A) Window)
      → m ≡ []
      → (j : Bucket × A) → Dict.get j m ≡ open_at window now (Dict.get j m)
  unfolding Dict.get
  all_open_nil window now m p j = rw p refl

  -- A window that has run out is not open, so taking it out changes no open one.
  open_at-remove :
      (window now : ℕ) (k j : Bucket × A) (m : Dict (Bucket × A) Window) (w : Window)
      → Dict.get k m ≡ some w
      → ltb now (w.started + window) ≡ false
      → open_at window now (Dict.get j (Dict.remove k m)) ≡ open_at window now (Dict.get j m)
  open_at-remove window now k j m w h over =
      ground (arith, Dict.get-remove k j m, key_eq_iff k j, h, over)

  pub expire_from-Expired :
      (window now low high : ℕ) (q : List (ℕ × (Bucket × A))) (m : Dict (Bucket × A) Window)
      → Ordered low q high
      → Paired q m
      → Distinct m
      → Expired window now low high m (expire_from window now q m)
  unfolding expire_from
  expire_from-Expired window now low high [] m o p d = record {
    rows = all_open_nil window now m p;
    paired = p;
    ordered = o;
    distinct = d;
    fewer = omega arith;
  }
  expire_from-Expired window now low high ((t, k) ∷ q) m o p d =
      elim (Bool-cases (ltb now (t + window))) [
        | inl still ↦
            rw (still, expire_from)
              (record {
                rows = λ j.
                    all_open window now t high ((t, k) ∷ q) m j (ground arith) (omega arith, o.1) p;
                paired = p;
                ordered = o;
                distinct = d;
                fewer = omega arith;
              })
        | inr over ↦
            rw (over, expire_from, forget-remove t k m p.0.0 p.0.1 p.0.2)
              (after_pop over (
                expire_from-Expired window now t high q (Dict.remove k m) o.1 p.1
                  (Dict.remove-Distinct k m d)))
      ]
    where
      after_pop :
          ltb now (t + window) ≡ false
          → Expired window now t high (Dict.remove k m) (expire_from window now q (Dict.remove k m))
          → Expired window now low high m (expire_from window now q (Dict.remove k m))
      after_pop over x = record {
        rows = λ j. x.rows j ∙ open_at-remove window now k j m p.0.0 p.0.1 (rw (p.0.2) over);
        paired = x.paired;
        ordered = Ordered-lower low t high _ o.0 x.ordered;
        distinct = x.distinct;
        fewer = omega (arith, x.fewer, Dict.length-remove-le k m);
      }

  pub Paired-push :
      (q : List (ℕ × (Bucket × A))) (m : Dict (Bucket × A) Window) (k : Bucket × A) (w : Window)
      → Paired q m
      → Dict.get k m ≡ none
      → Paired (q ++ (w.started, k) ∷ []) ((k, w) ∷ m)
  unfolding Dict.get Dict.remove
  Paired-push [] m k w p h = rw (p, (key_eq_iff k k).1 refl) ((w, refl, refl), refl)
  Paired-push ((t, j) ∷ q) m k w p h = elim (Bool-cases (key_eq k j)) [
    | inl same ↦ absurd (ground (arith, p.0.1, h, (key_eq_iff k j).0 same))
    | inr other ↦
        rw other
          (p.0, Paired-push q (Dict.remove j m) k w p.1 (ground (arith, Dict.get-remove j k m, h)))
  ]

  get-nil : (k : Bucket × A) (m : Dict (Bucket × A) Window) → m ≡ [] → Dict.get k m ≡ none
  unfolding Dict.get
  get-nil k m p = rw p refl

  pub Paired-update :
      (q : List (ℕ × (Bucket × A))) (m : Dict (Bucket × A) Window) (k : Bucket × A) (v w : Window)
      → Paired q m
      → Dict.get k m ≡ some v
      → w.started ≡ v.started
      → Paired q (Dict.insert k w m)
  Paired-update [] m k v w p h s = absurd (ground (arith, get-nil k m p))
  Paired-update ((t, j) ∷ q) m k v w p h s = elim (Bool-cases (key_eq k j)) [
    | inl same ↦ (
      (
        w,
        ground (arith, same, Dict.get-insert k j w m),
        ground (arith, p.0.1, p.0.2, h, s, (key_eq_iff k j).0 same),
      ),
      rw (Dict.remove-insert_same k j w m same) p.1,
    )
    | inr other ↦ (
      (p.0.0, ground (arith, other, Dict.get-insert k j w m, p.0.1), p.0.2),
      rw (Dict.remove-insert_ne k j w m other) (
          Paired-update q (Dict.remove j m) k v w p.1
            (ground (arith, Dict.get-remove j k m, h, key_eq_iff k j, key_eq_iff j k)) s),
    )
  ]

  pub Ordered-push :
      (low high now : ℕ) (q : List (ℕ × (Bucket × A))) (k : Bucket × A)
      → high ≤ now
      → Ordered low q high
      → Ordered low (q ++ (now, k) ∷ []) now
  Ordered-push low high now [] k h o = (omega (arith, o), omega arith)
  Ordered-push low high now ((t, j) ∷ q) k h o = (o.0, Ordered-push t high now q k h o.1)

  pub Ordered-later :
      (low high now : ℕ) (q : List (ℕ × (Bucket × A)))
      → high ≤ now
      → Ordered low q high
      → Ordered low q now
  Ordered-later low high now [] h o = omega (arith, o)
  Ordered-later low high now ((t, j) ∷ q) h o = (o.0, Ordered-later t high now q h o.1)

  pub length-Paired :
      (q : List (ℕ × (Bucket × A))) (m : Dict (Bucket × A) Window)
      → Distinct m
      → Paired q m
      → length q ≡ length m
  length-Paired [] m d p = rw p
  length-Paired ((t, k) ∷ q) m d p = omega (
    arith,
    length-Paired q (Dict.remove k m) (Dict.remove-Distinct k m d) p.1,
    Dict.length-remove-Distinct k m p.0.0 d p.0.1,
  )
