-- ===== src/Auth/Password.antt =====
-- internal/service/auth/password.go, over argon2, base64 and the decimals of fmt, and validPassword of
-- auth.go. Auth/Phc has the formats.
use imgli.Common.{
  arith, ◌≡◌, ◌↔◌, true, ℕ, Bool, false, ◌&&◌, Option, none, some, List, [], ◌∷◌, String, str_eq,
  leb, if◌then◌else◌,
}
use imgli.Auth.{Platform}
use imgli.Auth.Phc.{
  Cost, argon_cost, Decimal, IsDecimal, print_hash, scan_cost, split_dollar, no_dollar,
  split_dollar-print_hash, scan_cost-print_cost,
}

-- argon2, its version number, base64 and the comparison in constant time; `decimal` is `%d`.
pub record Argon {ℓ} (Bytes : Type ℓ) : Type ℓ where
  pub decimal : Decimal
  pub version : ℕ
  pub encode : Bytes → String
  pub decode : String → Option Bytes
  pub bytes_of : String → Bytes
  pub bytes_count : Bytes → ℕ
  pub id_key : Bytes → Bytes → Cost → ℕ → Bytes
  pub same_bytes : Bytes → Bytes → Bool

abbrev pub argon_key_len : ℕ
argon_key_len = 32

module _ {ℓ} {Bytes : Type ℓ} (argon : Argon Bytes) where
  -- HashPassword, for the salt that was drawn.
  unfoldable pub hash_password : Bytes → String → String
  hash_password salt pw =
      let key = argon.id_key (argon.bytes_of pw) salt argon_cost argon_key_len in
      print_hash argon.decimal argon.version argon_cost (argon.encode salt) (argon.encode key)

  -- The recomputed key against the stored one.
  abbrev matches : Cost → Bytes → Bytes → String → Bool
  matches cost salt want pw =
      argon.same_bytes (argon.id_key (argon.bytes_of pw) salt cost (argon.bytes_count want)) want

  abbrev verify_fields : String → String → String → String → String → Bool
  verify_fields name cost salt key pw =
      if str_eq name "argon2id"
      then elim (scan_cost argon.decimal cost) [
        | none ↦ false
        | some c ↦ elim (argon.decode salt) [
          | none ↦ false
          | some s ↦ elim (argon.decode key) [ none ↦ false | some k ↦ matches c s k pw ]
        ]
      ]
      else false

  abbrev verify_parts : List String → String → Bool
  verify_parts (start ∷ name ∷ version ∷ cost ∷ salt ∷ key ∷ []) pw =
      verify_fields name cost salt key pw
  verify_parts _ pw = false

  unfoldable pub verify_password : String → String → Bool
  verify_password encoded pw = verify_parts (split_dollar encoded) pw

  -- What base64, argon2 and the comparison are relied on for, and decimals.
  pub record Prints (salt : Bytes) : Type ℓ where
    pub decimal : IsDecimal argon.decimal
    pub plain : (b : Bytes) → no_dollar (argon.encode b) ≡ true
    pub decoded : (b : Bytes) → argon.decode (argon.encode b) ≡ some b
    pub counted :
        (pw : Bytes)
        → argon.bytes_count (argon.id_key pw salt argon_cost argon_key_len) ≡ argon_key_len
    pub compared : (a b : Bytes) → (argon.same_bytes a b ≡ true) ↔ (a ≡ b)

  -- A stored password hash accepts a password exactly if argon2 gives it the same key, under the
  -- stored salt, as the password that was stored; so it accepts that password, whatever salt was
  -- drawn. Decimals and base64 can be read again and have no "$", and a key is as long as asked.
  pub hash_password-verify :
      (salt : Bytes) (pw tried : String)
      → Prints salt
      → (verify_password (hash_password salt pw) tried ≡ true) ↔ (
          argon.id_key (argon.bytes_of tried) salt argon_cost argon_key_len
          ≡ argon.id_key (argon.bytes_of pw) salt argon_cost argon_key_len)
  unfolding hash_password verify_password
  hash_password-verify salt pw tried laws =
      let key = argon.id_key (argon.bytes_of pw) salt argon_cost argon_key_len in
      rw
        (
          split_dollar-print_hash argon.decimal laws.decimal argon.version argon_cost
              (argon.encode salt) (argon.encode key) (laws.plain salt) (laws.plain key),
          scan_cost-print_cost argon.decimal laws.decimal argon_cost (omega arith) (omega arith)
              (omega arith),
          laws.decoded salt,
          laws.decoded key,
          matches,
          laws.counted (argon.bytes_of pw),
        )
        (laws.compared (argon.id_key (argon.bytes_of tried) salt argon_cost argon_key_len) key)

abbrev pub valid_password : Platform → String → Bool
valid_password p pw = leb 8 (p.byte_length pw) && p.has_letter pw && p.has_digit pw
