-- ===== src/Config/Bounds.antt =====
-- crates/pinveil-server/src/config.rs: what accepted settings give the parts that read them.
use pinveil.Base.{
  ℕ, ◌+◌, ◌*◌, ◌/◌, ◌≡◌, ◌≤◌, Bool, true, max, Option, some, ok, Option-cases, arith,
}
use native.Mathlib.Nat.{div-add-mod}
use pinveil.Core.Payload.{limits_new}
use pinveil.Store.Memory.{empty, admits}
use pinveil.Config.{MessagesConfig, StoreConfig, build_messages, build_store, hash_concurrency}

product_le :
    (n fits a per rest budget : ℕ)
    → n ≤ fits
    → a ≤ per
    → per * fits + rest ≡ budget
    → n * a ≤ budget
product_le n fits a per rest budget less small whole = grind arith

-- Whatever is configured, an accepted hash concurrency is at least one and that many hashes fit
-- the memory budget.
pub hash_concurrency-fits :
    (cpus budget memory_kib : ℕ) (explicit : Option ℕ) (n : ℕ) (lowered : Bool)
    → hash_concurrency cpus budget memory_kib explicit ≡ ok (n, lowered)
    → (1 ≤ n) × (n * (memory_kib * 1024) ≤ budget)
unfolding hash_concurrency
hash_concurrency-fits cpus budget memory_kib explicit n lowered h =
    let per = max (memory_kib * 1024) 1 in
    let fits = budget / per in
    let whole = div-add-mod budget per in
    let small : (1 ≤ n) × (n ≤ fits) = ground (arith, Option-cases explicit) in
    (small.0, product_le n fits (memory_kib * 1024) per _ budget small.1 (omega arith) whole)

-- Under accepted settings an empty store admits every blob within the payload limit, and the
-- creation limits are ones that CreationLimits::new takes.
pub accepted_room :
    (m : MessagesConfig) (s : StoreConfig) (len : ℕ)
    → build_messages m ≡ ok m
    → build_store s m ≡ ok s
    → len ≤ m.max_payload_bytes
    → (admits (record { max_messages = s.max_messages; max_bytes = s.max_bytes }) len empty ≡ true)
      × (limits_new m.max_files m.max_manifest_bytes
          ≡ some (record { max_files = m.max_files; max_manifest_bytes = m.max_manifest_bytes }))
unfolding build_messages build_store admits limits_new
accepted_room m s len hm hs small = (ground arith, ground arith)
