-- ===== src/Store/Sqlite/Histories.antt =====
-- crates/pinveil-server/src/sqlite.rs, crates/pinveil-server/src/store.rs: whole histories of calls
-- on the two backends of the trait.
use pinveil.Base.{
  ℕ, ◌+◌, ◌^◌, ◌≤◌, ◌<◌, ◌≡◌, refl, ap, Text, Bool, Option, Result, List, [], ◌∷◌, length, All,
  arith,
}
use pinveil.Store.{Store, MessageMeta, InsertError, StoreError, Attempt}
use pinveil.Store.Memory.{Caps, Inner, memory_store}
use pinveil.Store.Memory.Steps.{
  Op, inserts, reads, fails, consumes, removes, sweeps, step, next_generation-step-le,
}
use pinveil.Store.Sqlite.{Database, Connection, sqlite_store, i64_max, u32_max}
use pinveil.Store.Sqlite.View.{Inv, view}
use pinveil.Store.Sqlite.Refines.{
  quiet, Agrees, meta-Agrees, consume-Agrees, remove-Agrees, sweep-Agrees,
}
use pinveil.Store.Sqlite.Refines.Inserting.{insert-Agrees}
use pinveil.Store.Sqlite.Refines.Failing.{record_failure-Agrees}

-- What a call answers.
pub data Answer : Type 0 where
  inserted : Result (Unit {0}) InsertError → Answer
  described : Result (Option MessageMeta) StoreError → Answer
  attempted : Result (Option Attempt) StoreError → Answer
  consumed : Result (Option Text) StoreError → Answer
  removed : Result Bool StoreError → Answer
  swept : Result ℕ StoreError → Answer

-- A call on any backend, and a history of calls.
unfoldable pub call : {S : Type 0} → Store S → Op → S → Answer × S
call b (inserts m now) s = let (r, t) = b.insert m now s in (inserted r, t)
call b (reads id) s = let (r, t) = b.meta id s in (described r, t)
call b (fails id g cap) s = let (r, t) = b.record_failure id g cap s in (attempted r, t)
call b (consumes id g) s = let (r, t) = b.consume id g s in (consumed r, t)
call b (removes id g) s = let (r, t) = b.remove id g s in (removed r, t)
call b (sweeps now) s = let (r, t) = b.sweep now s in (swept r, t)

unfoldable pub history : {S : Type 0} → Store S → List Op → S → List Answer × S
unfolding call
history b [] s = ([], s)
history b (op ∷ ops) s =
    let (answer, s') = call b op s in
    let (answers, end) = history b ops s' in (answer ∷ answers, end)

-- Times, generations, sizes and limits that the machine types of the code hold.
abbrev pub Fits : Op → Type 0
Fits (inserts m now) = (now ≤ i64_max) × (m.expires_at ≤ i64_max) × (length m.blob < 2 ^ 63)
Fits (reads id) = Unit
Fits (fails id g cap) = (g ≤ i64_max) × (cap ≤ u32_max)
Fits (consumes id g) = g ≤ i64_max
Fits (removes id g) = g ≤ i64_max
Fits (sweeps now) = now ≤ i64_max

-- One call on both backends.
record Same (ours : Answer × Connection) (theirs : Answer × Inner) : Type 0 where
  answer : ours.0 ≡ theirs.0
  state : view ours.1.database ≡ theirs.1
  kept : Inv ours.1.database
  still_quiet : ours.1 ≡ quiet ours.1.database

pub quiet_of : {c : Connection} → c.faults ≡ [] → c ≡ quiet c.database
quiet_of {c} h = ground arith

same :
    {A E : Type 0} {ours : Result A E × Connection} {theirs : Result A E × Inner}
    (wrap : Result A E → Answer)
    → Agrees ours theirs
    → Same (wrap ours.0, ours.1) (wrap theirs.0, theirs.1)
same wrap a = record {
  answer = ap wrap a.answer;
  state = a.state;
  kept = a.kept;
  still_quiet = quiet_of a.still_quiet;
}

call-Same :
    (c : Caps) (op : Op) (db : Database)
    → c.max_bytes < 2 ^ 63
    → Fits op
    → db.sequence < i64_max
    → Inv db
    → Same (call (sqlite_store c) op (quiet db)) (call (memory_store c) op (view db))
unfolding call
call-Same c (inserts m now) db capped f left v =
    same inserted (insert-Agrees c m now db f.0 f.1 f.2 capped left v)
call-Same c (reads id) db capped f left v = same described (meta-Agrees id db v)
call-Same c (fails id g cap) db capped f left v =
    same attempted (record_failure-Agrees id g cap db f.0 f.1 v)
call-Same c (consumes id g) db capped f left v = same consumed (consume-Agrees id g db f v)
call-Same c (removes id g) db capped f left v = same removed (remove-Agrees id g db f v)
call-Same c (sweeps now) db capped f left v = same swept (sweep-Agrees now db f v)

call-step : (c : Caps) (op : Op) (s : Inner) → (call (memory_store c) op s).1 ≡ step c op s
unfolding call step
call-step c (inserts m now) s = refl
call-step c (reads id) s = refl
call-step c (fails id g cap) s = refl
call-step c (consumes id g) s = refl
call-step c (removes id g) s = refl
call-step c (sweeps now) s = refl

sequence-call-le :
    (c : Caps) (op : Op) (db : Database) (next : Database)
    → view next ≡ (call (memory_store c) op (view db)).1
    → next.sequence ≤ db.sequence + 1
unfolding view
sequence-call-le c op db next h = omega (
  arith,
  ap (λ s. s.next_generation) h,
  ap (λ s. s.next_generation) (call-step c op (view db)),
  next_generation-step-le c op (view db),
)

-- While no SQL call fails, the SQLite store answers every history of calls with the answers of
-- the memory store, and ends in a database that stands for the memory store at its end, if the
-- values fit the machine types and the keys suffice for the calls.
pub history-Agrees :
    (c : Caps) (ops : List Op) (db : Database)
    → c.max_bytes < 2 ^ 63
    → All Fits ops
    → db.sequence + length ops ≤ i64_max
    → Inv db
    → ((history (sqlite_store c) ops (quiet db)).0 ≡ (history (memory_store c) ops (view db)).0)
      × (view (history (sqlite_store c) ops (quiet db)).1.database
          ≡ (history (memory_store c) ops (view db)).1)
unfolding history
history-Agrees c [] db capped f left v = (refl, refl)
history-Agrees c (op ∷ ops) db capped f left v =
    let one = call-Same c op db capped f.0 (omega arith) v in
    let next = (call (sqlite_store c) op (quiet db)).1.database in
    let rest =
      history-Agrees c ops next capped f.1 (omega (arith, sequence-call-le c op db next one.state))
        one.kept in
    rw (one.still_quiet, one.answer, ← one.state)
      (ap (λ others. (call (memory_store c) op (view db)).0 ∷ others) rest.0, rest.1)
