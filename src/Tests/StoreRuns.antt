-- ===== src/Tests/StoreRuns.antt =====
-- Runs of the memory store.
use pinveil.Base.{◌≡◌, ◌⊎◌, refl, List, [], ◌∷◌, arith, codes, text_eq, if◌then◌else◌}
use pinveil.Base.Dict
use pinveil.Store.{NewMessage}
use pinveil.Store.Memory
use pinveil.Store.Memory.{Caps, Entry, Inner, empty, consume, wrap64}
use pinveil.Store.Memory.Lookup.{row}
use pinveil.Store.Memory.Invariant.{Inv, empty-Inv}
use pinveil.Store.Memory.Insert.{IsTaken, IsRefused, IsStored, insert-contract}
use pinveil.Store.Memory.Steps.{Op, inserts, sweeps, fails, consumes, run, insert-Inv, run-Inv}
use pinveil.Store.Memory.Failures.{row-record_failure, charged_row}
use pinveil.Store.Memory.Generations.{IsStale, consume_once}

abbrev pub two_rows : Caps
two_rows = record { max_messages = 2; max_bytes = 100 }

abbrev pub note : NewMessage
note = record {
  id = codes "a";
  blob = 1 ∷ 2 ∷ 3 ∷ [];
  pin_salt = codes "s";
  pin_verifier = codes "v";
  expires_at = 1000;
  protocol_version = 2;
}

abbrev pub other_note : NewMessage
other_note = record note { blob = 9 ∷ [] }

abbrev held : Inner
held = (Memory.insert two_rows note 0 empty).1

held-Inv : Inv two_rows held
held-Inv =
    insert-Inv two_rows note 0 empty (record { size = omega arith; count = omega arith })
      (empty-Inv two_rows)

-- The same id again, a guess, a sweep and a second read.
abbrev pub later : List Op
later = inserts other_note 5 ∷ fails (codes "a") 1 3 ∷ sweeps 6 ∷ consumes (codes "a") 1 ∷ []

consume_once_example : IsStale (codes "a") 1 (run two_rows later (consume (codes "a") 1 held).1)
unfolding consume Memory.insert Dict.get Dict.insert Dict.remove text_eq
consume_once_example =
    consume_once two_rows (codes "a") 1 held (1 ∷ 2 ∷ 3 ∷ []) later held-Inv
      (omega arith, (tt, (tt, (tt, tt)))) (omega arith) refl

insert-contract_example :
    let out = Memory.insert two_rows other_note 5 held in
    IsTaken two_rows other_note 5 held out
    ⊎ (IsRefused two_rows other_note 5 held out ⊎ IsStored two_rows other_note 5 held out)
insert-contract_example = insert-contract two_rows other_note 5 held held-Inv

run-Inv_example : Inv two_rows (run two_rows later held)
unfolding Memory.insert Dict.get
run-Inv_example =
    run-Inv two_rows later held (omega arith, (tt, (tt, (tt, tt)))) (omega arith) held-Inv

row-record_failure_example : row (codes "a") (Memory.record_failure (codes "a") 1 3 held).1 ≡ (
    if text_eq (codes "a") (codes "a")
    then charged_row 1 3 (row (codes "a") held)
    else row (codes "a") held)
row-record_failure_example = row-record_failure (codes "a") (codes "a") 1 3 held
