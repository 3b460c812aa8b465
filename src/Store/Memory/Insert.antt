-- ===== src/Store/Memory/Insert.antt =====
-- crates/pinveil-server/src/store.rs: `MemoryStore::insert` against its contract.
use pinveil.Base.{
  ℕ, ◌+◌, ◌≡◌, ◌≢◌, ◌⊎◌, refl, sym, ◌∙◌, inl, inr, Text, true, false, Option, none, some, Result,
  ok, err, length, if◌then◌else◌, text_equality, text_eq, text_eq_iff, text_eq_refl, Bool-cases,
  Option-cases, arith,
}
use pinveil.Base.Dict
use pinveil.Base.Dict.{Dict, Distinct}
use pinveil.Store.{Time, NewMessage, InsertError, id_taken, full}
use pinveil.Store.Memory.{
  Entry, Inner, Caps, sweep_inner, yield_expired, admits, add_entry, admit_swept, insert_if_free,
  insert, wrap64,
}
use pinveil.Store.Memory.Lookup.{
  row, live, row-sweep_inner, row-yield_expired, next_generation-sweep_inner,
  next_generation-yield_expired,
}
use pinveil.Store.Memory.Invariant.{Inv, yield_expired-Inv}
use pinveil.Store.Memory.LiveRows.{live_rows, IsFull, refused-IsFull}

-- The row that a new message becomes.
abbrev pub fresh_entry : NewMessage → ℕ → Entry
fresh_entry m generation = record {
  blob = m.blob;
  meta = record {
    generation = generation;
    pin_salt = m.pin_salt;
    pin_verifier = m.pin_verifier;
    expires_at = m.expires_at;
    failed_attempts = 0;
  };
  protocol_version = m.protocol_version;
}

-- The three outcomes, of a call at state `s` that answers `out.0` and leaves `out.1`.
module _ (c : Caps) (m : NewMessage) (now : Time) (s : Inner)
    (out : Result (Unit {0}) InsertError × Inner) where
  -- The id is held by a live row: nothing changes, and the blob comes back.
  pub record IsTaken : Type 0 where
    pub holder : Entry
    pub held : live now (row m.id s) ≡ some holder
    pub said : out.0 ≡ err (id_taken m.blob)
    pub unchanged : (j : Text) → row j out.1 ≡ row j s
    pub counter : out.1.next_generation ≡ s.next_generation

  -- The message does not fit beside the rows of `s` that are live; the expired ones are gone.
  pub record IsRefused : Type 0 where
    pub free : live now (row m.id s) ≡ none
    pub said : out.0 ≡ err full
    pub swept : (j : Text) → row j out.1 ≡ live now (row j s)
    pub no_room : IsFull c (length m.blob) (live_rows now s.messages)
    pub counter : out.1.next_generation ≡ s.next_generation

  -- The message is stored under a generation never used before; other rows at most expire.
  pub record IsStored : Type 0 where
    pub free : live now (row m.id s) ≡ none
    pub said : out.0 ≡ ok tt
    pub stored : row m.id out.1 ≡ some (fresh_entry m (wrap64 (s.next_generation + 1)))
    pub others :
        (j : Text) → m.id ≢ j → (row j out.1 ≡ row j s) ⊎ (row j out.1 ≡ live now (row j s))
    pub counter : out.1.next_generation ≡ wrap64 (s.next_generation + 1)

live-live : (now : Time) (r : Option Entry) → live now (live now r) ≡ live now r
live-live now none = refl
live-live now (some e) = ground arith

pub live-eq-some : (now : Time) (r : Option Entry) (e : Entry) → live now r ≡ some e → r ≡ some e
live-eq-some now none e h = h
live-eq-some now (some d) e h = ground arith

row-add_entry :
    (m : NewMessage) (j : Text) (s : Inner)
    → row j (add_entry m s)
      ≡ (if text_eq m.id j then some (fresh_entry m (wrap64 (s.next_generation + 1))) else row j s)
unfolding add_entry
row-add_entry m j s = Dict.get-insert m.id j _ s.messages

row-add_entry_self :
    (m : NewMessage) (s : Inner)
    → row m.id (add_entry m s) ≡ some (fresh_entry m (wrap64 (s.next_generation + 1)))
row-add_entry_self m s = rw (row-add_entry m m.id s, text_eq_refl m.id)

row-add_entry_ne :
    (m : NewMessage) (j : Text) (s : Inner) → m.id ≢ j → row j (add_entry m s) ≡ row j s
row-add_entry_ne m j s ne = elim (Bool-cases (text_eq m.id j)) [
  | inl same ↦ absurd (ne ((text_eq_iff m.id j).0 same))
  | inr other ↦ rw (row-add_entry m j s, other)
]

next_generation-add_entry :
    (m : NewMessage) (s : Inner) → (add_entry m s).next_generation ≡ wrap64 (s.next_generation + 1)
unfolding add_entry
next_generation-add_entry m s = refl

module _ (c : Caps) (m : NewMessage) (now : Time) (s : Inner) where
  abbrev yielded : Inner
  yielded = yield_expired m.id now s

  abbrev swept_state : Inner
  swept_state = (sweep_inner now yielded).1

  insert_taken :
      (e : Entry) → row m.id yielded ≡ some e → insert c m now s ≡ (err (id_taken m.blob), yielded)
  unfolding insert insert_if_free
  insert_taken e h = ground arith

  insert_at_once :
      row m.id yielded ≡ none
      → admits c (length m.blob) yielded ≡ true
      → insert c m now s ≡ (ok tt, add_entry m yielded)
  unfolding insert insert_if_free
  insert_at_once h room = ground arith

  insert_after_sweep :
      row m.id yielded ≡ none
      → admits c (length m.blob) yielded ≡ false
      → insert c m now s ≡ admit_swept c m swept_state
  unfolding insert insert_if_free
  insert_after_sweep h short = ground arith

  row-yielded_self : row m.id yielded ≡ live now (row m.id s)
  row-yielded_self = rw (row-yield_expired m.id m.id now s, text_eq_refl m.id)

  row-yielded_ne : (j : Text) → m.id ≢ j → row j yielded ≡ row j s
  row-yielded_ne j ne = elim (Bool-cases (text_eq m.id j)) [
    | inl same ↦ absurd (ne ((text_eq_iff m.id j).0 same))
    | inr other ↦ rw (row-yield_expired m.id j now s, other)
  ]

  row-yielded_held : (e : Entry) → row m.id yielded ≡ some e → (j : Text) → row j yielded ≡ row j s
  row-yielded_held e h j = ground (
    arith,
    row-yield_expired m.id j now s,
    text_eq_iff m.id j,
    row-yielded_self,
    live-eq-some now (row m.id s) e,
  )

  row-swept_state : Distinct yielded.messages → (j : Text) → row j swept_state ≡ live now (row j s)
  row-swept_state d j = ground (
    arith,
    row-sweep_inner now j yielded d,
    row-yield_expired m.id j now s,
    live-live now (row j s),
  )

  -- The message was added to a state that differs from `s` in expired rows only.
  stored_from :
      (t : Inner)
      → live now (row m.id s) ≡ none
      → t.next_generation ≡ s.next_generation
      → ((j : Text) → m.id ≢ j → (row j t ≡ row j s) ⊎ (row j t ≡ live now (row j s)))
      → IsStored c m now s (ok tt, add_entry m t)
  stored_from t free g rows = record {
    free = free;
    said = refl;
    stored = rw (row-add_entry_self m t, g);
    others = λ j ne. rw (row-add_entry_ne m j t ne) (rows j ne);
    counter = rw (next_generation-add_entry m t, g);
  }

  contract_swept :
      row m.id yielded ≡ none
      → Inv c s
      → IsRefused c m now s (admit_swept c m swept_state)
        ⊎ IsStored c m now s (admit_swept c m swept_state)
  unfolding admit_swept
  contract_swept h v = elim (Bool-cases (admits c (length m.blob) swept_state)) [
    | inl room ↦ rw room (
        inr (
          stored_from swept_state (sym row-yielded_self ∙ h)
            (next_generation-sweep_inner now yielded ∙ next_generation-yield_expired m.id now s)
            (λ j ne. inr (row-swept_state (yield_expired-Inv c m.id now s v).distinct j))))
    | inr none_left ↦ rw none_left (
        inl (record {
          free = sym row-yielded_self ∙ h;
          said = refl;
          swept = row-swept_state (yield_expired-Inv c m.id now s v).distinct;
          no_room = refused-IsFull c m.id (length m.blob) now s v none_left;
          counter =
              next_generation-sweep_inner now yielded ∙ next_generation-yield_expired m.id now s;
        }))
  ]

-- On a store that keeps its accounting, insert refuses an id only for a live row, refuses for
-- space only when the rows that are live before it alone leave too little room, in number or in
-- the bytes of their blobs, and otherwise stores the message under the next generation, while
-- other rows at most expire.
pub insert-contract :
    (c : Caps) (m : NewMessage) (now : Time) (s : Inner)
    → Inv c s
    → let out = insert c m now s in
      IsTaken c m now s out ⊎ (IsRefused c m now s out ⊎ IsStored c m now s out)
insert-contract c m now s v = elim (Option-cases (row m.id t)) [
  | inr (e, h) ↦ rw (insert_taken c m now s e h) (
      inl (record {
        holder = e;
        held = sym at_id ∙ h;
        said = refl;
        unchanged = row-yielded_held c m now s e h;
        counter = next_generation-yield_expired m.id now s;
      }))
  | inl h ↦ elim (Bool-cases (admits c (length m.blob) t)) [
    | inl room ↦ rw (insert_at_once c m now s h room) (
        inr (
          inr (
            stored_from c m now s t (sym at_id ∙ h) (next_generation-yield_expired m.id now s)
              (λ j ne. inl (row-yielded_ne c m now s j ne)))))
    | inr short ↦ rw (insert_after_sweep c m now s h short) (inr (contract_swept c m now s h v))
  ]
]
  where
    t : Inner
    t = yield_expired m.id now s

    at_id : row m.id t ≡ live now (row m.id s)
    at_id = row-yielded_self c m now s
