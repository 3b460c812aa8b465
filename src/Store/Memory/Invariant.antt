-- ===== src/Store/Memory/Invariant.antt =====
-- crates/pinveil-server/src/store.rs: the accounting of `MemoryStore`, kept by every method.
use pinveil.Base.{
  ℕ, ◌≤◌, ◌≡◌, refl, inl, inr, Text, some, List, [], ◌∷◌, nat_eq, length, text_equality, Bool-cases,
  Option-cases, arith,
}
use pinveil.Base.Dict
use pinveil.Base.Dict.{Dict, weigh, AllV, Distinct}
use pinveil.Store.{Time, is_expired_at}
use pinveil.Store.Memory.{
  Entry, Inner, Caps, empty, drop_entry, take, take_generation, expired_ids, take_all, sweep_inner,
  yield_expired,
}

abbrev pub blob_len : Entry → ℕ
blob_len e = length e.blob

abbrev pub GenerationLe : ℕ → Entry → Type 0
GenerationLe n e = e.meta.generation ≤ n

-- The map holds one row for each id, the byte total counts every blob, both caps hold, and every
-- generation has been handed out.
pub record Inv (c : Caps) (s : Inner) : Type 0 where
  pub distinct : Distinct s.messages
  pub total : s.bytes ≡ weigh blob_len s.messages
  pub few : length s.messages ≤ c.max_messages
  pub within : s.bytes ≤ c.max_bytes
  pub handed_out : AllV (GenerationLe s.next_generation) s.messages

pub empty-Inv : (c : Caps) → Inv c empty
empty-Inv c = record {
  distinct = tt;
  total = refl;
  few = omega arith;
  within = omega arith;
  handed_out = tt;
}

pub AllV-mono :
    (a b : ℕ) (m : Dict Text Entry) → a ≤ b → AllV (GenerationLe a) m → AllV (GenerationLe b) m
AllV-mono a b [] h p = tt
AllV-mono a b ((k, e) ∷ m) h p = (omega arith, AllV-mono a b m h p.1)

-- A stored blob is counted, so taking its row never underflows the total.
pub drop_entry-Inv :
    (c : Caps) (id : Text) (e : Entry) (s : Inner)
    → Dict.get id s.messages ≡ some e
    → Inv c s
    → Inv c (drop_entry id e s)
unfolding drop_entry
drop_entry-Inv c id e s h v = record {
  distinct = Dict.remove-Distinct id s.messages v.distinct;
  total = omega (arith, v.total, Dict.weigh-remove blob_len id s.messages e v.distinct h);
  few = omega (arith, v.few, Dict.length-remove-le id s.messages);
  within = omega (arith, v.within);
  handed_out = Dict.remove-AllV (GenerationLe s.next_generation) id s.messages v.handed_out;
}

pub take-Inv : (c : Caps) (id : Text) (s : Inner) → Inv c s → Inv c (take id s).1
unfolding take
take-Inv c id s v = elim (Option-cases (Dict.get id s.messages)) [
  | inl h ↦ rw (h, take) v
  | inr (e, h) ↦ rw (h, take) (drop_entry-Inv c id e s h v)
]

pub take_generation-Inv :
    (c : Caps) (id : Text) (g : ℕ) (s : Inner) → Inv c s → Inv c (take_generation id g s).1
unfolding take_generation
take_generation-Inv c id g s v = elim (Option-cases (Dict.get id s.messages)) [
  | inl h ↦ rw (h, take_generation) v
  | inr (e, h) ↦ elim (Bool-cases (nat_eq e.meta.generation g)) [
    | inl t ↦ rw (h, take_generation, t) (take-Inv c id s v)
    | inr t ↦ rw (h, take_generation, t) v
  ]
]

pub take_all-Inv : (c : Caps) (ids : List Text) (s : Inner) → Inv c s → Inv c (take_all ids s)
unfolding take_all
take_all-Inv c [] s v = v
take_all-Inv c (id ∷ ids) s v = take_all-Inv c ids (take id s).1 (take-Inv c id s v)

pub sweep_inner-Inv : (c : Caps) (now : Time) (s : Inner) → Inv c s → Inv c (sweep_inner now s).1
unfolding sweep_inner
sweep_inner-Inv c now s v = take_all-Inv c (expired_ids now s.messages) s v

pub yield_expired-Inv :
    (c : Caps) (id : Text) (now : Time) (s : Inner) → Inv c s → Inv c (yield_expired id now s)
unfolding yield_expired
yield_expired-Inv c id now s v = elim (Option-cases (Dict.get id s.messages)) [
  | inl h ↦ rw (h, yield_expired) v
  | inr (e, h) ↦ elim (Bool-cases (is_expired_at e.meta now)) [
    | inl t ↦ rw (h, yield_expired, t) (take-Inv c id s v)
    | inr t ↦ rw (h, yield_expired, t) v
  ]
]
