-- ===== src/Store/Memory/LiveRows.antt =====
-- crates/pinveil-server/src/store.rs: what a sweep leaves in the map, in one pass over its rows.
use pinveil.Base.{
  ℕ, ◌+◌, ◌≤◌, ◌<◌, ◌≡◌, ◌⊎◌, refl, ap, ◌∙◌, inl, inr, Text, true, false, none, some, List, [], ◌∷◌,
  length, if◌then◌else◌, All, text_equality, text_eq, text_eq_iff, text_eq_refl, Bool-cases,
  Option-cases, arith, ltb,
}
use pinveil.Base.Dict
use pinveil.Base.Dict.{Dict, Distinct, weigh}
use pinveil.Store.{Time, is_expired_at}
use pinveil.Store.Memory.{
  Entry, Inner, Caps, take, drop_entry, expired_ids, take_all, sweep_inner, yield_expired, admits,
}
use pinveil.Store.Memory.Invariant.{Inv, blob_len, yield_expired-Inv, sweep_inner-Inv}

-- The rows of a map that have not expired.
abbrev pub live_rows : Time → Dict Text Entry → Dict Text Entry
live_rows now [] = []
live_rows now ((id, e) ∷ m) =
    let rest = live_rows now m in if is_expired_at e.meta now then rest else (id, e) ∷ rest

-- Beside these rows a blob of this length breaks a cap: the rows are too many, or the bytes of their
-- blobs too much.
pub IsFull : Caps → ℕ → Dict Text Entry → Type 0
IsFull c len m = (c.max_messages ≤ length m) ⊎ (c.max_bytes < weigh blob_len m + len)

remove_all : List Text → Dict Text Entry → Dict Text Entry
remove_all [] m = m
remove_all (id ∷ ids) m = remove_all ids (Dict.remove id m)

messages-take : (id : Text) (s : Inner) → (take id s).1.messages ≡ Dict.remove id s.messages
unfolding take drop_entry
messages-take id s = ground (arith, Dict.remove_absent id s.messages)

messages-take_all :
    (ids : List Text) (s : Inner) → (take_all ids s).messages ≡ remove_all ids s.messages
unfolding take_all remove_all
messages-take_all [] s = refl
messages-take_all (id ∷ ids) s =
    messages-take_all ids (take id s).1 ∙ ap (remove_all ids) (messages-take id s)

remove_all-cons :
    (ids : List Text) (k : Text) (e : Entry) (m : Dict Text Entry)
    → All (λ i. text_eq k i ≡ false) ids
    → remove_all ids ((k, e) ∷ m) ≡ (k, e) ∷ remove_all ids m
unfolding remove_all Dict.remove
remove_all-cons [] k e m h = refl
remove_all-cons (id ∷ ids) k e m h = rw h.0 (remove_all-cons ids k e (Dict.remove id m) h.1)

remove_all-head :
    (id : Text) (e : Entry) (ids : List Text) (m : Dict Text Entry)
    → Dict.get id m ≡ none
    → remove_all (id ∷ ids) ((id, e) ∷ m) ≡ remove_all ids m
unfolding remove_all Dict.remove
remove_all-head id e ids m h =
    rw (text_eq_refl id) (ap (remove_all ids) (Dict.remove_absent id m h))

expired_ids-others :
    (now : Time) (k : Text) (m : Dict Text Entry)
    → Dict.get k m ≡ none
    → All (λ i. text_eq k i ≡ false) (expired_ids now m)
unfolding expired_ids Dict.get
expired_ids-others now k [] h = tt
expired_ids-others now k ((id, e) ∷ m) h =
    ground (arith, h, text_eq_iff id k, text_eq_iff k id, expired_ids-others now k m)

remove_all-expired :
    (now : Time) (m : Dict Text Entry)
    → Distinct m
    → remove_all (expired_ids now m) m ≡ live_rows now m
unfolding expired_ids
remove_all-expired now [] d = unfold remove_all in refl
remove_all-expired now ((id, e) ∷ m) d = ground (
  arith,
  remove_all-head id e (expired_ids now m) m d.0,
  remove_all-cons (expired_ids now m) id e m (expired_ids-others now id m d.0),
  remove_all-expired now m d.1,
)

messages-sweep_inner :
    (now : Time) (s : Inner)
    → Distinct s.messages
    → (sweep_inner now s).1.messages ≡ live_rows now s.messages
unfolding sweep_inner
messages-sweep_inner now s d =
    messages-take_all (expired_ids now s.messages) s ∙ remove_all-expired now s.messages d

live_rows-remove :
    (now : Time) (k : Text) (e : Entry) (m : Dict Text Entry)
    → Distinct m
    → Dict.get k m ≡ some e
    → is_expired_at e.meta now ≡ true
    → live_rows now (Dict.remove k m) ≡ live_rows now m
unfolding Dict.get Dict.remove
live_rows-remove now k e [] d h x = refl
live_rows-remove now k e ((id, f) ∷ m) d h x =
    ground (arith, h, x, text_eq_iff id k, Dict.remove_absent k m, live_rows-remove now k e m d.1)

live_rows-yield_expired :
    (id : Text) (now : Time) (s : Inner)
    → Distinct s.messages
    → live_rows now (yield_expired id now s).messages ≡ live_rows now s.messages
unfolding yield_expired
live_rows-yield_expired id now s d = elim (Option-cases (Dict.get id s.messages)) [
  | inl h ↦ rw (h, yield_expired) refl
  | inr (e, h) ↦ elim (Bool-cases (is_expired_at e.meta now)) [
    | inl t ↦
        rw (h, yield_expired, t)
          (ap (live_rows now) (messages-take id s) ∙ live_rows-remove now id e s.messages d h t)
    | inr t ↦ rw (h, yield_expired, t) refl
  ]
]

-- A message that is refused after a sweep has no room beside the rows that are live.
pub refused-IsFull :
    (c : Caps) (id : Text) (len : ℕ) (now : Time) (s : Inner)
    → Inv c s
    → admits c len (sweep_inner now (yield_expired id now s)).1 ≡ false
    → IsFull c len (live_rows now s.messages)
unfolding admits IsFull
refused-IsFull c id len now s v h =
    let t = yield_expired id now s in
    let swept = (sweep_inner now t).1 in
    let kept = yield_expired-Inv c id now s v in
    let rows : swept.messages ≡ live_rows now s.messages =
      messages-sweep_inner now t kept.distinct ∙ live_rows-yield_expired id now s v.distinct in
    let total : swept.bytes ≡ weigh blob_len (live_rows now s.messages) =
      (sweep_inner-Inv c now t kept).total ∙ ap (weigh blob_len) rows in
    let few : length swept.messages ≡ length (live_rows now s.messages) = ap length rows in
    elim (Bool-cases (ltb (length swept.messages) c.max_messages)) [
      | inl room ↦ inr (ground (arith, h, room, total))
      | inr many ↦ inl (ground (arith, many, few))
    ]
