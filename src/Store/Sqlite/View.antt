-- ===== src/Store/Sqlite/View.antt =====
-- crates/pinveil-server/src/sqlite.rs: a database as the state of the memory store that it stands for.
use pinveil.Base.{
  ℕ, ◌+◌, ◌^◌, ◌≤◌, ◌<◌, ◌≡◌, refl, sym, ap, ◌∙◌, any, inl, inr, Text, false, Option, none, some,
  List, [], ◌∷◌, leb, length, text_eq, text_eq_iff, text_equality, Bool-cases, arith,
}
use pinveil.Base.Dict
use pinveil.Base.Dict.{Dict, weigh, AllV, Distinct}
use pinveil.Store.{Time, is_expired_at}
use pinveil.Store.Memory.{Entry, Inner, Caps, take, take_all, expired_ids, sweep_inner}
use pinveil.Store.Memory.Lookup.{any-expired_ids, expired_row, next_generation-sweep_inner}
use pinveil.Store.Memory.Invariant
use pinveil.Store.Memory.Invariant.{blob_len, GenerationLe, sweep_inner-Inv}
use pinveil.Store.Sqlite.{Row, Database, u32_max, unexpired}

unfoldable pub entry_of : Row → Entry
entry_of row = record {
  blob = row.blob;
  meta = record {
    generation = row.generation;
    pin_salt = row.pin_salt;
    pin_verifier = row.pin_verifier;
    expires_at = row.expires_at;
    failed_attempts = row.failed_attempts;
  };
  protocol_version = row.protocol_version;
}

abbrev pub size_of : Row → ℕ
size_of row = row.size

-- What every row of the store's own making satisfies.
pub record IsWritten (sequence : ℕ) (row : Row) : Type 0 where
  pub sized : row.size ≡ length row.blob
  pub countable : row.failed_attempts < u32_max
  pub numbered : row.generation ≤ sequence

-- One row for each id, rows of the store's own making, and a total that SQLite can sum.
pub record Inv (db : Database) : Type 0 where
  pub distinct : Distinct db.messages
  pub written : AllV (IsWritten db.sequence) db.messages
  pub summable : weigh size_of db.messages < 2 ^ 63

unfoldable pub entries : Dict Text Row → Dict Text Entry
unfolding entry_of
entries [] = []
entries ((id, row) ∷ m) = (id, entry_of row) ∷ entries m

unfoldable pub view : Database → Inner
unfolding entries
view db = record {
  messages = entries db.messages;
  bytes = weigh size_of db.messages;
  next_generation = db.sequence;
}

abbrev pub as_entry : Option Row → Option Entry
as_entry none = none
as_entry (some row) = some (entry_of row)

pub get-entries :
    (id : Text) (m : Dict Text Row) → Dict.get id (entries m) ≡ as_entry (Dict.get id m)
unfolding entries Dict.get
get-entries id [] = refl
get-entries id ((j, row) ∷ m) = elim (Bool-cases (text_eq j id)) [
  | inl h ↦ rw h
  | inr h ↦ rw (h, get-entries id m)
]

pub remove-entries :
    (id : Text) (m : Dict Text Row) → Dict.remove id (entries m) ≡ entries (Dict.remove id m)
unfolding entries Dict.remove
remove-entries id [] = refl
remove-entries id ((j, row) ∷ m) = elim (Bool-cases (text_eq j id)) [
  | inl h ↦ rw h (remove-entries id m)
  | inr h ↦ rw (h, remove-entries id m)
]

pub length-entries : (m : Dict Text Row) → length (entries m) ≡ length m
unfolding entries
length-entries [] = refl
length-entries ((j, row) ∷ m) = omega (arith, length-entries m)

pub weigh-entries :
    (n : ℕ) (m : Dict Text Row)
    → AllV (IsWritten n) m
    → weigh blob_len (entries m) ≡ weigh size_of m
unfolding entries entry_of
weigh-entries n [] w = refl
weigh-entries n ((j, row) ∷ m) w = omega (arith, weigh-entries n m w.1, w.0.sized)

Distinct-entries : (m : Dict Text Row) → Distinct m → Distinct (entries m)
unfolding entries
Distinct-entries [] d = tt
Distinct-entries ((j, row) ∷ m) d = (rw (get-entries j m, d.0), Distinct-entries m d.1)

numbered_entries :
    (n : ℕ) (m : Dict Text Row) → AllV (IsWritten n) m → AllV (GenerationLe n) (entries m)
unfolding entries entry_of
numbered_entries n [] w = tt
numbered_entries n ((j, row) ∷ m) w = (w.0.numbered, numbered_entries n m w.1)

-- The caps that the database itself uses up.
abbrev used : Database → Caps
used db = record { max_messages = length db.messages; max_bytes = weigh size_of db.messages }

view-Inv : (db : Database) → Inv db → Invariant.Inv (used db) (view db)
unfolding view
view-Inv db v = record {
  distinct = Distinct-entries db.messages v.distinct;
  total = sym (weigh-entries db.sequence db.messages v.written);
  few = omega (arith, length-entries db.messages);
  within = omega arith;
  handed_out = numbered_entries db.sequence db.messages v.written;
}

-- Deleting a row is taking its entry.
pub view-take :
    (id : Text) (row : Row) (db : Database)
    → Inv db
    → Dict.get id db.messages ≡ some row
    → (take id (view db)).1 ≡ view (record db { messages = Dict.remove id db.messages })
unfolding view take entry_of
view-take id row db v h =
    rw (get-entries id db.messages, h, take)
      (ground (
        arith,
        remove-entries id db.messages,
        Dict.weigh-remove size_of id db.messages row v.distinct h,
        (Dict.AllV-get (IsWritten db.sequence) id db.messages row v.written h).sized,
      ))

abbrev remove_all : List Text → Dict Text Entry → Dict Text Entry
remove_all [] m = m
remove_all (id ∷ ids) m = remove_all ids (Dict.remove id m)

messages-take : (id : Text) (s : Inner) → (take id s).1.messages ≡ Dict.remove id s.messages
unfolding take
messages-take id s = ground (arith, Dict.remove_absent id s.messages)

messages-take_all :
    (ids : List Text) (s : Inner) → (take_all ids s).messages ≡ remove_all ids s.messages
unfolding take_all
messages-take_all [] s = refl
messages-take_all (id ∷ ids) s =
    messages-take_all ids (take id s).1 ∙ ap (remove_all ids) (messages-take id s)

remove_all_other :
    (ids : List Text) (j : Text) (e : Entry) (m : Dict Text Entry)
    → any (λ i. text_eq i j) ids ≡ false
    → remove_all ids ((j, e) ∷ m) ≡ (j, e) ∷ remove_all ids m
unfolding Dict.remove
remove_all_other [] j e m h = refl
remove_all_other (id ∷ ids) j e m h = elim (Bool-cases (text_eq j id)) [
  | inl t ↦ ground (arith, text_eq_iff j id, text_eq_iff id j)
  | inr t ↦ rw t (remove_all_other ids j e (Dict.remove id m) (ground arith))
]

remove_head :
    (j : Text) (e : Entry) (m : Dict Text Entry)
    → Dict.get j m ≡ none
    → Dict.remove j ((j, e) ∷ m) ≡ m
unfolding Dict.remove
remove_head j e m h = ground (arith, text_eq_iff j j, Dict.remove_absent j m h)

-- Deleting the expired rows one id at a time leaves the rows that one DELETE leaves.
remove_all-expired_ids :
    (now : Time) (m : Dict Text Row)
    → Distinct m
    → remove_all (expired_ids now (entries m)) (entries m) ≡ entries (unexpired now m)
unfolding expired_ids entries entry_of unexpired is_expired_at Dict.remove expired_row
remove_all-expired_ids now [] d = refl
remove_all-expired_ids now ((j, row) ∷ m) d = elim (Bool-cases (leb row.expires_at now)) [
  | inl t ↦ rw t (
      ap (remove_all (expired_ids now (entries m)))
        (remove_head j (entry_of row) (entries m) absent)
      ∙ remove_all-expired_ids now m d.1)
  | inr t ↦ rw t (
      remove_all_other (expired_ids now (entries m)) j (entry_of row) (entries m) live_id
      ∙ ap (λ rest. (j, entry_of row) ∷ rest) (remove_all-expired_ids now m d.1))
]
  where
    absent : Dict.get j (entries m) ≡ none
    absent = rw (get-entries j m, d.0)

    live_id : any (λ i. text_eq i j) (expired_ids now (entries m)) ≡ false
    live_id = rw (any-expired_ids now j (entries m) (Distinct-entries m d.1), absent)

pub get-unexpired-none :
    (now : Time) (j : Text) (m : Dict Text Row)
    → Dict.get j m ≡ none
    → Dict.get j (unexpired now m) ≡ none
unfolding unexpired Dict.get
get-unexpired-none now j [] h = h
get-unexpired-none now j ((i, row) ∷ m) h = ground (arith, get-unexpired-none now j m)

pub unexpired-Distinct : (now : Time) (m : Dict Text Row) → Distinct m → Distinct (unexpired now m)
unfolding unexpired
unexpired-Distinct now [] d = tt
unexpired-Distinct now ((j, row) ∷ m) d =
    ground (arith, unexpired-Distinct now m d.1, get-unexpired-none now j m)

pub unexpired-IsWritten :
    (n now : ℕ) (m : Dict Text Row) → AllV (IsWritten n) m → AllV (IsWritten n) (unexpired now m)
unfolding unexpired
unexpired-IsWritten n now [] w = tt
unexpired-IsWritten n now ((j, row) ∷ m) w = elim (Bool-cases (leb row.expires_at now)) [
  | inl t ↦ rw t (unexpired-IsWritten n now m w.1)
  | inr t ↦ rw t (w.0, unexpired-IsWritten n now m w.1)
]

pub weigh-unexpired-le :
    (now : ℕ) (m : Dict Text Row) → weigh size_of (unexpired now m) ≤ weigh size_of m
unfolding unexpired
weigh-unexpired-le now [] = omega arith
weigh-unexpired-le now ((j, row) ∷ m) = ground (arith, weigh-unexpired-le now m)

pub length-unexpired :
    (now : ℕ) (m : Dict Text Row)
    → length (expired_ids now (entries m)) + length (unexpired now m) ≡ length m
unfolding unexpired expired_ids entries entry_of is_expired_at
length-unexpired now [] = refl
length-unexpired now ((j, row) ∷ m) = ground (arith, length-unexpired now m)

-- The sweep of the database is the sweep of the memory store.
pub view-sweep :
    (now : Time) (db : Database)
    → Inv db
    → (sweep_inner now (view db)).1 ≡ view (record db { messages = unexpired now db.messages })
unfolding view sweep_inner
view-sweep now db v = ground (
  arith,
  messages-take_all (expired_ids now (entries db.messages)) (view db),
  remove_all-expired_ids now db.messages v.distinct,
  (sweep_inner-Inv (used db) now (view db) (view-Inv db v)).total,
  next_generation-sweep_inner now (view db),
  weigh-entries db.sequence (unexpired now db.messages)
      (unexpired-IsWritten db.sequence now db.messages v.written),
)
