-- ===== src/Store/Memory/Lookup.antt =====
-- crates/pinveil-server/src/store.rs: what each step of `MemoryStore` leaves under an id, and what
-- it does to the generation counter.
use pinveil.Base.{
  ℕ, ◌≡◌, refl, ◌∙◌, Text, Bool, false, Option, none, some, List, [], ◌∷◌, nat_eq, if◌then◌else◌,
  text_equality, text_eq, text_eq_iff, any, arith,
}
use pinveil.Base.Dict
use pinveil.Base.Dict.{Dict, Distinct}
use pinveil.Store.{Time, is_expired_at}
use pinveil.Store.Memory.{
  Entry, Inner, drop_entry, take, take_generation, expired_ids, take_all, sweep_inner,
  yield_expired,
}

-- The rows as the trait's callers see them: a partial function of the id.
abbrev pub row : Text → Inner → Option Entry
row j s = Dict.get j s.messages

-- A row, unless it has expired.
abbrev pub live : Time → Option Entry → Option Entry
live now none = none
live now (some e) = if is_expired_at e.meta now then none else some e

unfoldable pub expired_row : Time → Option Entry → Bool
expired_row now none = false
expired_row now (some e) = is_expired_at e.meta now

pub row-drop_entry :
    (id j : Text) (e : Entry) (s : Inner)
    → row j (drop_entry id e s) ≡ (if text_eq id j then none else row j s)
unfolding drop_entry
row-drop_entry id j e s = Dict.get-remove id j s.messages

pub row-take :
    (id j : Text) (s : Inner) → row j (take id s).1 ≡ (if text_eq id j then none else row j s)
unfolding take
row-take id j s =
    ground (arith, row-drop_entry id j, Dict.get-remove id j s.messages, text_eq_iff id j)

pub next_generation-take :
    (id : Text) (s : Inner) → (take id s).1.next_generation ≡ s.next_generation
unfolding take
next_generation-take id s = ground arith

pub row-take_all :
    (ids : List Text) (j : Text) (s : Inner)
    → row j (take_all ids s) ≡ (if any (λ i. text_eq i j) ids then none else row j s)
unfolding take_all
row-take_all [] j s = refl
row-take_all (id ∷ ids) j s = ground (arith, row-take_all ids j (take id s).1, row-take id j s)

pub next_generation-take_all :
    (ids : List Text) (s : Inner) → (take_all ids s).next_generation ≡ s.next_generation
unfolding take_all
next_generation-take_all [] s = refl
next_generation-take_all (id ∷ ids) s =
    next_generation-take_all ids (take id s).1 ∙ next_generation-take id s

pub any-expired_ids :
    (now : Time) (j : Text) (m : Dict Text Entry)
    → Distinct m
    → any (λ i. text_eq i j) (expired_ids now m) ≡ expired_row now (Dict.get j m)
unfolding expired_ids expired_row Dict.get
any-expired_ids now j [] d = refl
any-expired_ids now j ((id, e) ∷ m) d =
    ground (arith, any-expired_ids now j m d.1, text_eq_iff id j)

-- A sweep removes exactly the expired rows, and changes no other.
pub row-sweep_inner :
    (now : Time) (j : Text) (s : Inner)
    → Distinct s.messages
    → row j (sweep_inner now s).1 ≡ live now (row j s)
unfolding sweep_inner expired_row
row-sweep_inner now j s d =
    ground
      (arith, row-take_all (expired_ids now s.messages) j s, any-expired_ids now j s.messages d)

pub next_generation-sweep_inner :
    (now : Time) (s : Inner) → (sweep_inner now s).1.next_generation ≡ s.next_generation
unfolding sweep_inner
next_generation-sweep_inner now s = next_generation-take_all (expired_ids now s.messages) s

pub row-yield_expired :
    (id j : Text) (now : Time) (s : Inner)
    → row j (yield_expired id now s) ≡ (if text_eq id j then live now (row j s) else row j s)
unfolding yield_expired
row-yield_expired id j now s = ground (arith, row-take id j s, text_eq_iff id j)

pub next_generation-yield_expired :
    (id : Text) (now : Time) (s : Inner)
    → (yield_expired id now s).next_generation ≡ s.next_generation
unfolding yield_expired
next_generation-yield_expired id now s = ground (arith, next_generation-take id s)

-- `take_generation` takes the row only while it still is of that generation.
abbrev pub of_generation : ℕ → Option Entry → Option Entry
of_generation g none = none
of_generation g (some e) = if nat_eq e.meta.generation g then some e else none

pub taken-take_generation :
    (id : Text) (g : ℕ) (s : Inner) → (take_generation id g s).0 ≡ of_generation g (row id s)
unfolding take_generation take
taken-take_generation id g s = ground arith

abbrev pub without_generation : ℕ → Option Entry → Option Entry
without_generation g none = none
without_generation g (some e) = if nat_eq e.meta.generation g then none else some e

pub row-take_generation :
    (id j : Text) (g : ℕ) (s : Inner)
    → row j (take_generation id g s).1
      ≡ (if text_eq id j then without_generation g (row j s) else row j s)
unfolding take_generation
row-take_generation id j g s = ground (arith, row-take id j s, text_eq_iff id j)

pub next_generation-take_generation :
    (id : Text) (g : ℕ) (s : Inner) → (take_generation id g s).1.next_generation ≡ s.next_generation
unfolding take_generation
next_generation-take_generation id g s = ground (arith, next_generation-take id s)
