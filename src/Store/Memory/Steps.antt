-- ===== src/Store/Memory/Steps.antt =====
-- crates/pinveil-server/src/store.rs: the methods of `MemoryStore` as the steps of a history, and
-- the accounting invariant along every history.
use pinveil.Base.{
  ℕ, ◌+◌, ◌^◌, ◌≤◌, ◌<◌, ◌≡◌, inl, inr, Text, true, none, some, List, [], ◌∷◌, nat_eq, leb, length,
  text_equality, All, Bool-cases, Option-cases, arith,
}
use pinveil.Base.Dict
use pinveil.Base.Dict.{Dict, Distinct, weigh, AllV}
use pinveil.Store.{Time, NewMessage}
use pinveil.Store.Memory.{
  Entry, Inner, Caps, sweep_inner, yield_expired, admits, add_entry, admit_swept, insert_if_free,
  insert, charge, meta, record_failure, consume, remove, sweep, wrap32,
}
use pinveil.Store.Memory.Lookup.{
  row, row-sweep_inner, next_generation-sweep_inner, next_generation-yield_expired,
  next_generation-take, next_generation-take_generation,
}
use pinveil.Store.Memory.Invariant.{
  Inv, blob_len, GenerationLe, AllV-mono, take-Inv, take_generation-Inv, sweep_inner-Inv,
  yield_expired-Inv,
}

-- Blob sizes and row counts that a 64-bit machine can hold, so that the counters do not wrap.
pub record Fits (c : Caps) (m : NewMessage) (s : Inner) : Type 0 where
  pub size : c.max_bytes + length m.blob < 2 ^ 64
  pub count : s.next_generation + 1 < 2 ^ 64

add_entry-Inv :
    (c : Caps) (m : NewMessage) (s : Inner)
    → Fits c m s
    → row m.id s ≡ none
    → admits c (length m.blob) s ≡ true
    → Inv c s
    → Inv c (add_entry m s)
unfolding add_entry admits Dict.insert
add_entry-Inv c m s f free room v =
    let same = Dict.remove_absent m.id s.messages free in
    rw same (record {
      distinct = (free, v.distinct);
      total = ground (arith, v.total, f.size, v.within);
      few = ground arith;
      within = ground (arith, f.size, v.within);
      handed_out = (
        omega (arith, f.count),
        AllV-mono s.next_generation _ s.messages (omega (arith, f.count)) v.handed_out,
      );
    })

-- `insert` keeps the accounting on every branch.
pub insert-Inv :
    (c : Caps) (m : NewMessage) (now : Time) (s : Inner)
    → Fits c m s
    → Inv c s
    → Inv c (insert c m now s).1
unfolding insert
insert-Inv c m now s f v = elim (Option-cases (row m.id s₁)) [
  | inr (e, h) ↦ rw (h, insert_if_free) v₁
  | inl free ↦ elim (Bool-cases (admits c (length m.blob) s₁)) [
    | inl room ↦ rw (free, insert_if_free, room) (add_entry-Inv c m s₁ f₁ free room v₁)
    | inr none_left ↦ rw (free, insert_if_free, none_left) (swept free)
  ]
]
  where
    s₁ : Inner
    s₁ = yield_expired m.id now s

    v₁ : Inv c s₁
    v₁ = yield_expired-Inv c m.id now s v

    f₁ : Fits c m s₁
    f₁ = record {
      size = f.size;
      count = omega (arith, f.count, next_generation-yield_expired m.id now s);
    }

    s₂ : Inner
    s₂ = (sweep_inner now s₁).1

    swept : row m.id s₁ ≡ none → Inv c (admit_swept c m s₂).1
    swept free = elim (Bool-cases (admits c (length m.blob) s₂)) [
      | inl room ↦ rw (room, admit_swept) (add_entry-Inv c m s₂ f₂ free₂ room v₂)
      | inr full ↦ rw (full, admit_swept) v₂
    ]
      where
        v₂ : Inv c s₂
        v₂ = sweep_inner-Inv c now s₁ v₁

        f₂ : Fits c m s₂
        f₂ = record {
          size = f.size;
          count = omega (arith, f₁.count, next_generation-sweep_inner now s₁);
        }

        free₂ : row m.id s₂ ≡ none
        free₂ = rw (row-sweep_inner now m.id s₁ v₁.distinct, free)

charge-Inv :
    (c : Caps) (id : Text) (e : Entry) (s : Inner)
    → row id s ≡ some e
    → Inv c s
    → Inv c (charge id e s)
unfolding charge Dict.insert
charge-Inv c id e s h v = record {
  distinct = (Dict.get-remove_self id s.messages, Dict.remove-Distinct id s.messages v.distinct);
  total = omega (arith, v.total, Dict.weigh-remove blob_len id s.messages e v.distinct h);
  few = omega (arith, v.few, Dict.length-remove id s.messages e h);
  within = v.within;
  handed_out = (
    Dict.AllV-get (GenerationLe s.next_generation) id s.messages e v.handed_out h,
    Dict.remove-AllV (GenerationLe s.next_generation) id s.messages v.handed_out,
  );
}

pub record_failure-Inv :
    (c : Caps) (id : Text) (g cap : ℕ) (s : Inner) → Inv c s → Inv c (record_failure id g cap s).1
unfolding record_failure
record_failure-Inv c id g cap s v = elim (Option-cases (row id s)) [
  | inl h ↦ rw (h, record_failure) v
  | inr (e, h) ↦ elim (Bool-cases (nat_eq e.meta.generation g)) [
    | inr t ↦ rw (h, record_failure, t) v
    | inl t ↦ elim (Bool-cases (leb cap (wrap32 (e.meta.failed_attempts + 1)))) [
      | inl b ↦
          rw (h, record_failure, t, b) (take-Inv c id (charge id e s) (charge-Inv c id e s h v))
      | inr b ↦ rw (h, record_failure, t, b) (charge-Inv c id e s h v)
    ]
  ]
]

-- One call of a method of the store.
pub data Op : Type 0 where
  inserts : NewMessage → Time → Op
  reads : Text → Op
  fails : Text → ℕ → ℕ → Op
  consumes : Text → ℕ → Op
  removes : Text → ℕ → Op
  sweeps : Time → Op

-- The state that a call leaves.
unfoldable pub step : Caps → Op → Inner → Inner
unfolding insert meta record_failure consume remove sweep
step c (inserts m now) s = (insert c m now s).1
step c (reads id) s = (meta id s).1
step c (fails id g cap) s = (record_failure id g cap s).1
step c (consumes id g) s = (consume id g s).1
step c (removes id g) s = (remove id g s).1
step c (sweeps now) s = (sweep now s).1

unfoldable pub run : Caps → List Op → Inner → Inner
unfolding step
run c [] s = s
run c (op ∷ ops) s = run c ops (step c op s)

-- A blob in a call leaves the byte total below 2^64.
abbrev pub BlobFits : Caps → Op → Type 0
BlobFits c (inserts m now) = c.max_bytes + length m.blob < 2 ^ 64
BlobFits c _ = Unit

pub step-Inv :
    (c : Caps) (op : Op) (s : Inner)
    → BlobFits c op
    → s.next_generation + 1 < 2 ^ 64
    → Inv c s
    → Inv c (step c op s)
unfolding step meta consume remove sweep
step-Inv c (inserts m now) s b g v = insert-Inv c m now s (record { size = b; count = g }) v
step-Inv c (reads id) s b g v = ground (arith, v)
step-Inv c (fails id k cap) s b g v = record_failure-Inv c id k cap s v
step-Inv c (consumes id k) s b g v = take_generation-Inv c id k s v
step-Inv c (removes id k) s b g v = take_generation-Inv c id k s v
step-Inv c (sweeps now) s b g v = sweep_inner-Inv c now s v

next_generation-add_entry :
    (m : NewMessage) (s : Inner) → (add_entry m s).next_generation ≤ s.next_generation + 1
unfolding add_entry
next_generation-add_entry m s = omega arith

next_generation-insert-le :
    (c : Caps) (m : NewMessage) (now : Time) (s : Inner)
    → (insert c m now s).1.next_generation ≤ s.next_generation + 1
unfolding insert insert_if_free admit_swept
next_generation-insert-le c m now s =
    let s₁ = yield_expired m.id now s in
    let s₂ = (sweep_inner now s₁).1 in
    ground (
      arith,
      next_generation-yield_expired m.id now s,
      next_generation-sweep_inner now s₁,
      next_generation-add_entry m s₁,
      next_generation-add_entry m s₂,
    )

pub next_generation-record_failure :
    (id : Text) (g cap : ℕ) (s : Inner)
    → (record_failure id g cap s).1.next_generation ≡ s.next_generation
unfolding record_failure charge
next_generation-record_failure id g cap s = elim (Option-cases (row id s)) [
  | inl h ↦ rw (h, record_failure)
  | inr (e, h) ↦ rw (h, record_failure) (ground (arith, next_generation-take id (charge id e s)))
]

-- A call hands out at most one generation.
pub next_generation-step-le :
    (c : Caps) (op : Op) (s : Inner) → (step c op s).next_generation ≤ s.next_generation + 1
unfolding step meta consume remove sweep
next_generation-step-le c (inserts m now) s = next_generation-insert-le c m now s
next_generation-step-le c (reads id) s = ground arith
next_generation-step-le c (fails id k cap) s =
    omega (arith, next_generation-record_failure id k cap s)
next_generation-step-le c (consumes id k) s = omega (arith, next_generation-take_generation id k s)
next_generation-step-le c (removes id k) s = omega (arith, next_generation-take_generation id k s)
next_generation-step-le c (sweeps now) s = omega (arith, next_generation-sweep_inner now s)

-- Every history of store calls keeps one row for each id, the byte total equal to the stored
-- blobs, both caps, and generations that have been handed out, while sizes and the number of
-- calls stay within 64 bits.
pub run-Inv :
    (c : Caps) (ops : List Op) (s : Inner)
    → All (BlobFits c) ops
    → s.next_generation + length ops < 2 ^ 64
    → Inv c s
    → Inv c (run c ops s)
unfolding run
run-Inv c [] s b g v = v
run-Inv c (op ∷ ops) s b g v =
    run-Inv c ops (step c op s) b.1 (omega (arith, next_generation-step-le c op s))
      (step-Inv c op s b.0 (omega arith) v)
