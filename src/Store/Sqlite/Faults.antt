-- ===== src/Store/Sqlite/Faults.antt =====
-- crates/pinveil-server/src/sqlite.rs: the methods under any pattern of failing SQL calls.
pub mod Methods
use pinveil.Base.{
  ℕ, ◌≡◌, refl, ◌⊎◌, inl, inr, Text, Bool, true, false, Option, none, some, Result, ok, err, List,
  [], ◌∷◌, leb, Result-cases, Option-cases, Bool-cases, length, ap,
}
use pinveil.Base.Actions.{Action, pure, ◌>>=◌, ◌>>◌}
use pinveil.Store.{Time, NewMessage, storage, full, id_taken, store_error, counted, burned}
use pinveil.Store.Memory.{Caps}
use pinveil.Store.Sqlite.{
  Database, Connection, SqlError, sql_error, Transaction, Statement, i64_max, execute, commit,
  begin_immediate, transaction, nanos, delete_if_expired, exists, select_usage, sweep_in,
  insert_row, charge_row, delete_generation, admits, add_row, add_swept, add_admitted, add_if_free,
  insert_in, answered, stored, insert, auto_commit, meta, select_meta, settle, judge, fail_in,
  record_failure, consume_in, consume, count_removed, remove, sweep_all, sweep, sqlite_store,
}
use pinveil.Store.Sqlite.Refines.{quiet}
use pinveil.Store.Sqlite.Histories.{
  Answer, inserted, described, attempted, consumed, removed, swept, call,
}
use pinveil.Store.Memory.Steps.{Op, inserts, reads, fails, consumes, removes, sweeps}

abbrev pub tx : Database → Database → List Bool → Transaction
tx c w faults = record { committed = c; working = w; faults = faults }

-- The same of the rest of a transaction.
abbrev pub IsTidy : {A : Type 0} → Action Transaction SqlError A → Type 0
IsTidy body =
    (c w : Database) (faults : List Bool)
    → (((body (tx c w faults)).0 ≡ (body (tx c w [])).0)
        × ((body (tx c w faults)).1.committed ≡ (body (tx c w [])).1.committed))
      ⊎ ((body (tx c w faults)).0 ≡ err sql_error) × ((body (tx c w faults)).1.committed ≡ c)

-- Statements, which commit nothing.
abbrev IsPlain : {A : Type 0} → Action Transaction SqlError A → Type 0
IsPlain {A} body =
    (c w : Database) (faults : List Bool)
    → ((r : Result A SqlError) × (w' : Database) × (rest : List Bool) × (body (tx c w faults)
          ≡ (r, tx c w' rest))
        × (body (tx c w []) ≡ (r, tx c w' [])))
      ⊎ ((body (tx c w faults)).0 ≡ err sql_error) × ((body (tx c w faults)).1.committed ≡ c)

execute-IsPlain : {A : Type 0} (f : Statement A) → IsPlain (execute f)
unfolding execute
execute-IsPlain f c w [] = inl ((f w).0, (f w).1, [], refl, refl)
execute-IsPlain f c w (true ∷ rest) = inr (refl, refl)
execute-IsPlain f c w (false ∷ rest) = inl ((f w).0, (f w).1, rest, refl, refl)

pure-IsTidy : {A : Type 0} (a : A) → IsTidy (pure a)
pure-IsTidy a c w faults = inl (refl, refl)

commit-IsTidy : {A : Type 0} (a : A) → IsTidy (commit >> pure a)
unfolding commit
commit-IsTidy a c w [] = inl (refl, refl)
commit-IsTidy a c w (true ∷ rest) = inr (refl, refl)
commit-IsTidy a c w (false ∷ rest) = inl (refl, refl)

bind-IsTidy :
    {A B : Type 0} (m : Action Transaction SqlError A) (k : A → Action Transaction SqlError B)
    → IsPlain m
    → ((a : A) → IsTidy (k a))
    → IsTidy (m >>= k)
bind-IsTidy m k plain tidy c w faults = elim (plain c w faults) [
  | inr (failed, same) ↦ inr (rw failed, rw failed same)
  | inl (r, w', rest, here, there) ↦ elim (Result-cases r) [
    | inl (a, e) ↦ rw (here, there, e) (tidy a c w' rest)
    | inr (b, e) ↦ inl (rw (here, there, e), rw (here, there, e))
  ]
]

bind-IsPlain :
    {A B : Type 0} (m : Action Transaction SqlError A) (f : A → B)
    → IsPlain m
    → IsPlain (m >>= λ a. pure (f a))
bind-IsPlain {A} {B} m f plain c w faults = elim (plain c w faults) [
  | inr (failed, same) ↦ inr (rw failed, rw failed same)
  | inl (r, w', rest, here, there) ↦ elim (Result-cases r) [
    | inl (a, e) ↦ inl (ok (f a), w', rest, rw (here, e), rw (there, e))
    | inr (b, e) ↦ inl (err b, w', rest, rw (here, e), rw (there, e))
  ]
]

admits-IsPlain : (c : Caps) (len : ℕ) → IsPlain (admits c len)
unfolding admits
admits-IsPlain c len = bind-IsPlain (execute select_usage) _ (execute-IsPlain select_usage)

module _ {A B : Type 0} (f : Statement A) (k : A → Action Transaction SqlError B) where
  pub execute_then : ((a : A) → IsTidy (k a)) → IsTidy (execute f >>= k)
  execute_then tidy = bind-IsTidy (execute f) k (execute-IsPlain f) tidy

add_row-IsTidy : (m : NewMessage) (expires_at : ℕ) → IsTidy (add_row m expires_at)
unfolding add_row
add_row-IsTidy m expires_at = execute_then (insert_row m expires_at) _ (λ _. commit-IsTidy (ok tt))

add_swept-IsTidy :
    (m : NewMessage) (expires_at : ℕ) (room : Bool) → IsTidy (add_swept m expires_at room)
unfolding add_swept
add_swept-IsTidy m expires_at true = add_row-IsTidy m expires_at
add_swept-IsTidy m expires_at false = commit-IsTidy (err full)

add_admitted-IsTidy :
    (c : Caps) (m : NewMessage) (now expires_at : ℕ) (room : Bool)
    → IsTidy (add_admitted c m now expires_at room)
unfolding add_admitted
add_admitted-IsTidy c m now expires_at true = add_row-IsTidy m expires_at
add_admitted-IsTidy c m now expires_at false = execute_then (sweep_in now) _ λ _.
    bind-IsTidy (admits c (length m.blob)) _ (admits-IsPlain c (length m.blob))
      (add_swept-IsTidy m expires_at)

add_if_free-IsTidy :
    (c : Caps) (m : NewMessage) (now expires_at : ℕ) (taken : Bool)
    → IsTidy (add_if_free c m now expires_at taken)
unfolding add_if_free
add_if_free-IsTidy c m now expires_at true = pure-IsTidy (err (id_taken m.blob))
add_if_free-IsTidy c m now expires_at false =
    bind-IsTidy (admits c (length m.blob)) _ (admits-IsPlain c (length m.blob))
      (add_admitted-IsTidy c m now expires_at)

pub insert_in-IsTidy :
    (c : Caps) (m : NewMessage) (now expires_at : ℕ) → IsTidy (insert_in c m now expires_at)
unfolding insert_in
insert_in-IsTidy c m now expires_at =
    execute_then (delete_if_expired m.id now) _
      λ _. execute_then (exists m.id) _ (add_if_free-IsTidy c m now expires_at)

settle-IsTidy :
    (id : Text) (generation cap failures : ℕ) → IsTidy (settle id generation cap failures)
unfolding settle
settle-IsTidy id generation cap failures = elim (Bool-cases (leb cap failures)) [
  | inl t ↦
      rw t (execute_then (delete_generation id generation) _ (λ _. commit-IsTidy (some burned)))
  | inr t ↦ rw t (commit-IsTidy (some (counted failures)))
]

judge-IsTidy :
    (id : Text) (generation cap : ℕ) (failures : Option ℕ)
    → IsTidy (judge id generation cap failures)
unfolding judge
judge-IsTidy id generation cap none = pure-IsTidy none
judge-IsTidy id generation cap (some failures) = settle-IsTidy id generation cap _

pub fail_in-IsTidy : (id : Text) (generation cap : ℕ) → IsTidy (fail_in id generation cap)
unfolding fail_in
fail_in-IsTidy id generation cap =
    execute_then (charge_row id generation) _ (judge-IsTidy id generation cap)

pub consume_in-IsTidy : (id : Text) (generation : ℕ) → IsTidy (consume_in id generation)
unfolding consume_in
consume_in-IsTidy id generation = execute_then (delete_generation id generation) _ commit-IsTidy

pub sweep_all-IsTidy : (now : ℕ) → IsTidy (sweep_all now)
unfolding sweep_all
sweep_all-IsTidy now = execute_then (sweep_in now) _ commit-IsTidy
