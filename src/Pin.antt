-- ===== src/Pin.antt =====
-- crates/pinveil-server/src/pin.rs: PIN verifiers. Argon2 and the PHC string format are third-party
-- code, so they are parameters.
use pinveil.Base.{◌++◌, ◌≡◌, Text, Bool, true, false, Option, none, some, codes}

-- The trait.
pub record PinVerifier : Type 0 where
  pub hash : Text → Text → Text
  pub verify : Text → Text → Text → Bool

-- What a client of the trait relies on: `verify` accepts a PIN against its own hash.
abbrev pub AcceptsOwnHash : PinVerifier → Type 0
AcceptsOwnHash v = (pin salt : Text) → v.verify pin salt (v.hash pin salt) ≡ true

-- The `argon2` crate at the configured cost: hash an input under a salt into a PHC string, parse a
-- PHC string, and check an input against a parsed one.
pub record Argon2 : Type 1 where
  pub Phc : Type 0
  pub hash_password : Text → Text → Text
  pub parse_phc : Text → Option Phc
  pub verify_password : Text → Phc → Bool

module _ (argon2 : Argon2) (pepper : Text) where
  unfoldable pub input : Text → Text → Text
  input pin salt = pin ++ (codes ":" ++ (salt ++ (codes ":" ++ pepper)))

  unfoldable pub argon2_hash : Text → Text → Text
  unfolding input
  argon2_hash pin salt = argon2.hash_password (input pin salt) salt

  unfoldable pub argon2_verify : Text → Text → Text → Bool
  unfolding input
  argon2_verify pin salt verifier = elim (argon2.parse_phc verifier) [
    | none ↦ false
    | some parsed ↦ argon2.verify_password (input pin salt) parsed
  ]

  abbrev pub argon2_verifier : PinVerifier
  argon2_verifier = record { hash = argon2_hash; verify = argon2_verify }

  -- The crate's round trip: the PHC string of an input parses, and the input checks against it.
  abbrev pub RoundTrips : Type 0
  RoundTrips =
      (i salt : Text)
      → (phc : argon2.Phc) × (argon2.parse_phc (argon2.hash_password i salt) ≡ some phc)
        × (argon2.verify_password i phc ≡ true)

  accepts_own :
      RoundTrips → (pin salt : Text) → argon2_verify pin salt (argon2_hash pin salt) ≡ true
  unfolding argon2_hash argon2_verify
  accepts_own law pin salt =
      let (phc, parsed, checked) = law (input pin salt) salt in rw (parsed, argon2_verify) checked

  -- The Argon2 verifier accepts a PIN against the hash it made of it, where a PHC string that
  -- the crate made parses and accepts its input.
  pub argon2-AcceptsOwnHash : RoundTrips → AcceptsOwnHash argon2_verifier
  argon2-AcceptsOwnHash law = accepts_own law
