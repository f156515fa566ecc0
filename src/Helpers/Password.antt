-- ===== src/Helpers/Password.antt =====
-- The password hashes of src/helpers.hpp. Argon2 and SHA-256 are parameters; the random numbers that
-- the generators deliver are arguments.
use bartimaeus_app.Base.{ℕ, zero, suc, ◌-◌, Bool, List, ◌++◌, map, Option, none, some, take, length}
use bartimaeus_app.Base.Bytes.{Bytes}
use bartimaeus_app.Hex.{hex_digit}
use bartimaeus_app.Helpers.Search.{index_of}

pub record Argon2 : Type 0 where
  -- argon2_encodedlen of t_cost, m_cost, parallelism, the salt's length and the hash's
  pub encoded_length : ℕ → ℕ → ℕ → ℕ → ℕ → ℕ
  -- argon2id_hash_encoded with the three costs, password, salt, the hash's length and the buffer's;
  -- the buffer, or `none` for an error
  pub hash_encoded : ℕ → ℕ → ℕ → Bytes → List ℕ → ℕ → ℕ → Option Bytes
  pub verify : Bytes → Bytes → Bool

-- encoded.erase(encoded.find('\0')), which throws when there is no 0
abbrev pub erase_nulls : Bytes → Option Bytes
erase_nulls encoded = elim (index_of 0 encoded) [ none ↦ none | some i ↦ some (take i encoded) ]

abbrev pub without_nulls : Option Bytes → Option Bytes
without_nulls none = none
without_nulls (some encoded) = erase_nulls encoded

-- `none` is the exception; `salt` are 16 random bytes.
unfoldable pub hash_password_argon2id : Argon2 → List ℕ → Bytes → Option Bytes
hash_password_argon2id argon2 salt password =
    let encoded_len = argon2.encoded_length 3 32768 1 (length salt) 32 in
    without_nulls (argon2.hash_encoded 3 32768 1 password salt 32 encoded_len)

unfoldable pub verify_password_argon2id : Argon2 → Bytes → Bytes → Bool
verify_password_argon2id argon2 password encoded_hash = argon2.verify encoded_hash password

-- `digits` are 32 random numbers below 16.
unfoldable pub generate_secure_salt : List ℕ → Bytes
generate_secure_salt digits = map hex_digit digits

stretch : (Bytes → Bytes) → Bytes → ℕ → Bytes → Bytes
stretch sha256 salt zero current_hash = current_hash
stretch sha256 salt (suc n) current_hash = stretch sha256 salt n (sha256 (current_hash ++ salt))

unfoldable pub stretch_password_sha256 : (Bytes → Bytes) → Bytes → Bytes → ℕ → Bytes
unfolding stretch
stretch_password_sha256 sha256 password salt iterations =
    stretch sha256 salt (iterations - 1) (sha256 (password ++ salt))
