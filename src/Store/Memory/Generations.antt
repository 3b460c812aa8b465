-- ===== src/Store/Memory/Generations.antt =====
-- crates/pinveil-server/src/store.rs: generations. A row that is gone never comes back, so what a
-- stale request does to its id is nothing.
use pinveil.Base.{
  ℕ, ◌+◌, ◌^◌, ◌≤◌, ◌<◌, ◌≡◌, refl, sym, inl, inr, Text, false, Option, none, some, List, [], ◌∷◌,
  Result, ok, length, text_equality, text_eq, text_eq_iff, text_eq_refl, All, Bool-cases,
  Option-cases, arith,
}
use pinveil.Base.Dict
use pinveil.Store.{Time, NewMessage, Attempt, StoreError, InsertError}
use pinveil.Store.Memory.{
  Entry, Inner, Caps, take_generation, sweep_inner, insert, meta, record_failure, consume, remove,
  sweep, blob_of, is_some,
}
use pinveil.Store.Memory.Lookup.{
  row, live, of_generation, without_generation, taken-take_generation, row-take_generation,
  row-sweep_inner, next_generation-take_generation, next_generation-sweep_inner,
}
use pinveil.Store.Memory.Invariant.{Inv, GenerationLe, take_generation-Inv}
use pinveil.Store.Memory.Insert.{insert-contract, IsStored}
use pinveil.Store.Memory.Failures.{
  charged_row, row-record_failure, answer-record_failure, charge_answer,
}
use pinveil.Store.Memory.Steps.{
  Op, inserts, reads, fails, consumes, removes, sweeps, step, run, BlobFits, step-Inv,
  next_generation-step-le, next_generation-record_failure,
}

-- Generation `g` was handed out, and `id` does not hold it.
pub record Gone (id : Text) (g : ℕ) (s : Inner) : Type 0 where
  pub handed : g ≤ s.next_generation
  pub absent : of_generation g (row id s) ≡ none

of_generation-live :
    (g : ℕ) (now : Time) (r : Option Entry)
    → of_generation g r ≡ none
    → of_generation g (live now r) ≡ none
of_generation-live g now none h = h
of_generation-live g now (some e) h = ground arith

of_generation-charged_row :
    (g k cap : ℕ) (r : Option Entry)
    → of_generation g r ≡ none
    → of_generation g (charged_row k cap r) ≡ none
of_generation-charged_row g k cap none h = h
of_generation-charged_row g k cap (some e) h = ground arith

of_generation-without_generation :
    (g k : ℕ) (r : Option Entry)
    → of_generation g r ≡ none
    → of_generation g (without_generation k r) ≡ none
of_generation-without_generation g k none h = h
of_generation-without_generation g k (some e) h = ground arith

take_generation-Gone :
    (id j : Text) (g k : ℕ) (s : Inner) → Gone id g s → Gone id g (take_generation j k s).1
take_generation-Gone id j g k s gone = record {
  handed = omega (arith, gone.handed, next_generation-take_generation j k s);
  absent = ground (
    arith,
    gone.absent,
    row-take_generation j id k s,
    of_generation-without_generation g k (row id s),
  );
}

-- What an insert leaves under `id`, if it stores its message.
stored-absent :
    (c : Caps) (id : Text) (g : ℕ) (m : NewMessage) (now : Time) (s : Inner)
    (out : Result (Unit {0}) InsertError × Inner)
    → s.next_generation + 1 < 2 ^ 64
    → Gone id g s
    → IsStored c m now s out
    → of_generation g (row id out.1) ≡ none
stored-absent c id g m now s out small gone st = elim (Bool-cases (text_eq m.id id)) [
  | inl same ↦ rw (sym ((text_eq_iff m.id id).0 same), st.stored) (ground (arith, gone.handed))
  | inr other ↦ elim (st.others id (λ e. ground (arith, text_eq_iff m.id id))) [
    | inl kept ↦ rw (kept, gone.absent)
    | inr lived ↦ rw lived (of_generation-live g now (row id s) gone.absent)
  ]
]

insert-Gone :
    (c : Caps) (id : Text) (g : ℕ) (m : NewMessage) (now : Time) (s : Inner)
    → s.next_generation + 1 < 2 ^ 64
    → Inv c s
    → Gone id g s
    → Gone id g (insert c m now s).1
insert-Gone c id g m now s small v gone = elim (insert-contract c m now s v) [
  | inl t ↦ record {
    handed = omega (arith, t.counter, gone.handed);
    absent = rw (t.unchanged id, gone.absent);
  }
  | inr (inl r) ↦ record {
    handed = omega (arith, r.counter, gone.handed);
    absent = rw (r.swept id) (of_generation-live g now (row id s) gone.absent);
  }
  | inr (inr st) ↦ record {
    handed = omega (arith, st.counter, gone.handed);
    absent = stored-absent c id g m now s (insert c m now s) small gone st;
  }
]

record_failure-Gone :
    (id j : Text) (g k cap : ℕ) (s : Inner) → Gone id g s → Gone id g (record_failure j k cap s).1
record_failure-Gone id j g k cap s gone = record {
  handed = omega (arith, gone.handed, next_generation-record_failure j k cap s);
  absent = ground (
    arith,
    gone.absent,
    row-record_failure j id k cap s,
    of_generation-charged_row g k cap (row id s),
  );
}

sweep-Gone :
    (c : Caps) (id : Text) (g : ℕ) (now : Time) (s : Inner)
    → Inv c s
    → Gone id g s
    → Gone id g (sweep_inner now s).1
sweep-Gone c id g now s v gone = record {
  handed = omega (arith, gone.handed, next_generation-sweep_inner now s);
  absent =
      rw (row-sweep_inner now id s v.distinct) (of_generation-live g now (row id s) gone.absent);
}

step-Gone :
    (c : Caps) (id : Text) (g : ℕ) (op : Op) (s : Inner)
    → s.next_generation + 1 < 2 ^ 64
    → Inv c s
    → Gone id g s
    → Gone id g (step c op s)
unfolding step meta consume remove sweep
step-Gone c id g (inserts m now) s small v gone = insert-Gone c id g m now s small v gone
step-Gone c id g (reads j) s small v gone = ground (arith, gone)
step-Gone c id g (fails j k cap) s small v gone = record_failure-Gone id j g k cap s gone
step-Gone c id g (consumes j k) s small v gone = take_generation-Gone id j g k s gone
step-Gone c id g (removes j k) s small v gone = take_generation-Gone id j g k s gone
step-Gone c id g (sweeps now) s small v gone = sweep-Gone c id g now s v gone

run-Gone :
    (c : Caps) (id : Text) (g : ℕ) (ops : List Op) (s : Inner)
    → All (BlobFits c) ops
    → s.next_generation + length ops < 2 ^ 64
    → Inv c s
    → Gone id g s
    → Gone id g (run c ops s)
unfolding run
run-Gone c id g [] s b n v gone = gone
run-Gone c id g (op ∷ ops) s b n v gone =
    run-Gone c id g ops (step c op s) b.1 (omega (arith, next_generation-step-le c op s))
      (step-Inv c op s b.0 (omega arith) v) (step-Gone c id g op s (omega arith) v gone)

-- Whatever is asked of a row that is gone is refused.
pub record IsStale (id : Text) (g : ℕ) (s : Inner) : Type 0 where
  pub consumes_nothing : (consume id g s).0 ≡ ok none
  pub removes_nothing : (remove id g s).0 ≡ ok false
  pub charges_nothing : (cap : ℕ) → (record_failure id g cap s).0 ≡ ok none

Gone-IsStale : (id : Text) (g : ℕ) (s : Inner) → Gone id g s → IsStale id g s
unfolding consume remove blob_of is_some
Gone-IsStale id g s gone = record {
  consumes_nothing = rw (taken-take_generation id g s, gone.absent);
  removes_nothing = rw (taken-take_generation id g s, gone.absent);
  charges_nothing =
      λ cap. rw (answer-record_failure id g cap s) (answer (row id s) cap gone.absent);
}
  where
    answer :
        (r : Option Entry) (cap : ℕ)
        → of_generation g r ≡ none
        → ◌≡◌ {A = Result (Option Attempt) StoreError} (ok (charge_answer g cap r)) (ok none)
    answer none cap h = refl
    answer (some e) cap h = ground arith

consume-Gone :
    (c : Caps) (id : Text) (g : ℕ) (s : Inner) (blob : Text)
    → Inv c s
    → (consume id g s).0 ≡ ok (some blob)
    → Gone id g (consume id g s).1
unfolding consume blob_of
consume-Gone c id g s blob v h = elim (Option-cases (row id s)) [
  | inl absent ↦ absurd (ground (arith, taken-take_generation id g s))
  | inr (e, held) ↦ record {
    handed = ground (
      arith,
      taken-take_generation id g s,
      Dict.AllV-get (GenerationLe s.next_generation) id s.messages e v.handed_out held,
      next_generation-take_generation id g s,
    );
    absent = ground (arith, row-take_generation id id g s, text_eq_refl id);
  }
]

-- On a store that keeps its accounting, with sizes and the number of calls within 64 bits: after
-- consume has handed out the blob of a generation, and after any further calls on the store,
-- consume, remove and record_failure of that generation answer that it is gone.
pub consume_once :
    (c : Caps) (id : Text) (g : ℕ) (s : Inner) (blob : Text) (ops : List Op)
    → Inv c s
    → All (BlobFits c) ops
    → s.next_generation + length ops < 2 ^ 64
    → (consume id g s).0 ≡ ok (some blob)
    → IsStale id g (run c ops (consume id g s).1)
unfolding consume
consume_once c id g s blob ops v b n h =
    let s' = (take_generation id g s).1 in
    Gone-IsStale id g _ (
      run-Gone c id g ops s' b (omega (arith, next_generation-take_generation id g s))
        (take_generation-Inv c id g s v) (consume-Gone c id g s blob v h))
