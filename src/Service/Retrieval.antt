-- ===== src/Service/Retrieval.antt =====
-- crates/pinveil-server/src/service.rs: `retrieve` and the sweeper, as actions on the store's state.
use pinveil.Base.{ℕ, Text, not, none, some, ok, ok_or, nat_eq, if◌then◌else◌}
use pinveil.Base.Actions.{Action, fail, lift, ◌>>=◌, ◌>>◌, refuse_when, map_err}
use pinveil.Core.Generate.{is_valid_pin}
use pinveil.ApiError.{ApiError, invalid_pin, wrong_pin, unavailable}
use pinveil.Store.{MessageMeta, is_expired_at, StoreError}
use pinveil.Service.{Parts, Readings, busy, storage_unavailable, pool_run}

module _ {S : Type 0} (parts : Parts S) (r : Readings) where
  open parts use {store, verifier, policy}

  -- The branch of an expired row.
  unfoldable pub discard : Text → MessageMeta → Action S ApiError Text
  discard id meta = do
    removed ← map_err storage_unavailable (store.remove id meta.generation)
    fail unavailable

  -- The branch of a wrong PIN.
  unfoldable pub charge_wrong : Text → MessageMeta → Action S ApiError Text
  charge_wrong id meta = do
    attempt ←
        map_err storage_unavailable
          (store.record_failure id meta.generation policy.max_failed_attempts)
    elim attempt [ some _ ↦ fail wrong_pin | none ↦ fail unavailable ]

  -- The branch of the right PIN.
  unfoldable pub hand_out : Text → MessageMeta → Action S ApiError Text
  hand_out id meta = do
    blob ← map_err storage_unavailable (store.consume id meta.generation)
    lift (ok_or blob unavailable)

  -- The PIN check and the two branches after it.
  unfoldable pub check_pin : Text → Text → MessageMeta → Action S ApiError Text
  unfolding pool_run charge_wrong hand_out
  check_pin id pin meta = do
    matches ←
        lift
          (pool_run r.ahead parts.max_waiting (verifier.verify pin meta.pin_salt meta.pin_verifier))
    if matches then hand_out id meta else charge_wrong id meta

  unfoldable pub retrieve_now : Text → Text → Action S ApiError Text
  unfolding is_expired_at discard check_pin
  retrieve_now id pin = do
    found ← map_err storage_unavailable (store.meta id)
    meta ← lift (ok_or found unavailable)
    if is_expired_at meta r.now then discard id meta else check_pin id pin meta

  -- The PIN's shape and the admission slot come before everything.
  unfoldable pub retrieve : Text → Text → Action S ApiError Text
  unfolding is_valid_pin retrieve_now
  retrieve id pin = do
    refuse_when (not (is_valid_pin pin)) invalid_pin
    refuse_when (nat_eq r.slots 0) busy
    retrieve_now id pin

  -- The sweeper: the sweep's count, whether or not the housekeeping after it finished.
  unfoldable pub sweep : Action S StoreError ℕ
  sweep = do removed ← store.sweep r.now; λ s. (ok removed, (store.maintain s).1)
