-- ===== src/Store/Memory/Failures.antt =====
-- crates/pinveil-server/src/store.rs: `MemoryStore::record_failure`, one wrong PIN and many.
use pinveil.Base.{
  ℕ, zero, suc, ◌+◌, ◌^◌, ◌<◌, ◌≡◌, inl, inr, Text, false, Option, none, some, ok, nat_eq, leb,
  if◌then◌else◌, text_equality, text_eq, text_eq_iff, text_eq_refl, Bool-cases, Option-cases, arith,
}
use pinveil.Base.Dict
use pinveil.Store.{Attempt, counted, burned}
use pinveil.Store.Memory.{Entry, Inner, charge, record_failure, wrap32}
use pinveil.Store.Memory.Lookup.{row, row-take}

-- A row with its failure count set.
abbrev pub with_failures : ℕ → Entry → Entry
with_failures n e = record e { meta = record e.meta { failed_attempts = n } }

-- What one wrong PIN against generation `g` makes of a row, and the answer to it.
abbrev pub charged_row : ℕ → ℕ → Option Entry → Option Entry
charged_row g cap none = none
charged_row g cap (some e) =
    if nat_eq e.meta.generation g
    then (let n = wrap32 (e.meta.failed_attempts + 1) in
        if leb cap n then none else some (with_failures n e))
    else some e

abbrev pub charge_answer : ℕ → ℕ → Option Entry → Option Attempt
charge_answer g cap none = none
charge_answer g cap (some e) =
    if nat_eq e.meta.generation g
    then (let n = wrap32 (e.meta.failed_attempts + 1) in
        if leb cap n then some burned else some (counted n))
    else none

pub answer-record_failure :
    (id : Text) (g cap : ℕ) (s : Inner)
    → (record_failure id g cap s).0 ≡ ok (charge_answer g cap (row id s))
unfolding record_failure
answer-record_failure id g cap s = ground arith

row-charge :
    (id j : Text) (e : Entry) (s : Inner)
    → row j (charge id e s) ≡ (
        if text_eq id j
        then some (with_failures (wrap32 (e.meta.failed_attempts + 1)) e)
        else row j s)
unfolding charge
row-charge id j e s = Dict.get-insert id j _ s.messages

row-record_failure_self :
    (id : Text) (g cap : ℕ) (s : Inner)
    → row id (record_failure id g cap s).1 ≡ charged_row g cap (row id s)
unfolding record_failure
row-record_failure_self id g cap s = elim (Option-cases (row id s)) [
  | inl h ↦ rw (h, record_failure, h)
  | inr (e, h) ↦
      rw (h, record_failure)
        (ground (arith, row-charge id id e s, row-take id id (charge id e s), text_eq_refl id, h))
]

row-record_failure_ne :
    (id j : Text) (g cap : ℕ) (s : Inner)
    → text_eq id j ≡ false
    → row j (record_failure id g cap s).1 ≡ row j s
unfolding record_failure
row-record_failure_ne id j g cap s ne = elim (Option-cases (row id s)) [
  | inl h ↦ rw (h, record_failure)
  | inr (e, h) ↦
      rw (h, record_failure)
        (ground (arith, ne, row-charge id j e s, row-take id j (charge id e s)))
]

-- A wrong PIN against row `g` of `id` is counted or burns the row; it touches nothing else, and
-- nothing at all if that row is gone.
pub row-record_failure :
    (id j : Text) (g cap : ℕ) (s : Inner)
    → row j (record_failure id g cap s).1
      ≡ (if text_eq id j then charged_row g cap (row j s) else row j s)
row-record_failure id j g cap s = elim (Bool-cases (text_eq id j)) [
  | inl same ↦ rw same (subst_row ((text_eq_iff id j).0 same))
  | inr other ↦ rw (other, row-record_failure_ne id j g cap s other)
]
  where
    subst_row : id ≡ j → row j (record_failure id g cap s).1 ≡ charged_row g cap (row j s)
    subst_row e = rw (← e) (row-record_failure_self id g cap s)

-- `n` wrong PINs in a row against one row.
pub fail_times : ℕ → Text → ℕ → ℕ → Inner → Inner
unfolding record_failure
fail_times zero id g cap s = s
fail_times (suc n) id g cap s = fail_times n id g cap (record_failure id g cap s).1

row-fail_times_gone :
    (n : ℕ) (id : Text) (g cap : ℕ) (s : Inner)
    → row id s ≡ none
    → row id (fail_times n id g cap s) ≡ none
unfolding fail_times
row-fail_times_gone zero id g cap s h = h
row-fail_times_gone (suc n) id g cap s h =
    row-fail_times_gone n id g cap (record_failure id g cap s).1
      (ground (arith, row-record_failure_self id g cap s))

-- A row takes exactly `cap` wrong PINs in all: before that they are counted one by one, and at the
-- limit the row is gone and stays gone.
pub row-fail_times :
    (n : ℕ) (id : Text) (cap : ℕ) (e : Entry) (s : Inner)
    → row id s ≡ some e
    → e.meta.failed_attempts < cap
    → cap < 2 ^ 32
    → row id (fail_times n id e.meta.generation cap s) ≡ (
        if leb cap (e.meta.failed_attempts + n)
        then none
        else some (with_failures (e.meta.failed_attempts + n) e))
unfolding fail_times
row-fail_times zero id cap e s h below small = rw h (ground arith)
row-fail_times (suc n) id cap e s h below small =
    let f = wrap32 (e.meta.failed_attempts + 1) in
    let e' : Entry = with_failures f e in
    let s' = (record_failure id e.meta.generation cap s).1 in
    ground (
      arith,
      row-fail_times n id cap e' s',
      row-fail_times_gone n id e.meta.generation cap s',
      row-record_failure_self id e.meta.generation cap s,
    )
