-- ===== src/AuthService/RoundTrip/Hash.antt =====
-- What the hash of a password is good for: hashPasswordArgon2id and verifyPasswordArgon2id of
-- src/helpers.hpp together.
use bartimaeus_app.Base.{
  ℕ, suc, ◌≡◌, refl, ap, inl, inr, true, Bool-cases, Option-cases, length, List, [], ◌∷◌, Option,
  none, some, arith, take, ◌==◌,
}
use bartimaeus_app.Base.Bytes.{Bytes}
use bartimaeus_app.Helpers.Password.{Argon2, without_nulls, hash_password_argon2id}
use bartimaeus_app.Helpers.Search.{index_of}
use bartimaeus_app.Database.{c_string}

-- What the program relies on of Argon2: a hash that was made of a password fits it; the encoded hash
-- is read as a C string.
pub record IsHash (argon2 : Argon2) : Type 0 where
  pub verifies :
      (password encoded : Bytes) (salt : List ℕ) (n : ℕ)
      → argon2.hash_encoded 3 32768 1 password salt 32 n ≡ some encoded
      → argon2.verify (c_string encoded) password ≡ true

-- Cutting a buffer at its first 0 leaves the C string that it holds.
c_string-take :
    (encoded : Bytes) (i : ℕ)
    → index_of 0 encoded ≡ some i
    → c_string (take i encoded) ≡ c_string encoded
unfolding index_of c_string
c_string-take [] i e = cc
c_string-take (c ∷ s) i e = elim (Bool-cases (c == 0)) [
  | inl here ↦ ground arith
  | inr on ↦ elim (Option-cases (index_of 0 s)) [
    | inl never ↦ let clash = rw (index_of, on, never) at e in cc
    | inr (j, there) ↦
        let at_suc : suc j ≡ i = ground arith in
        rw (← at_suc, c_string, on) (ap (◌∷◌ c) (c_string-take s j there))
  ]
]

c_string-cut :
    (encoded hashed : Bytes) (i : Option ℕ)
    → index_of 0 encoded ≡ i
    → elim i [ none ↦ none | some i ↦ some (take i encoded) ] ≡ some hashed
    → c_string hashed ≡ c_string encoded
c_string-cut encoded hashed none there e = cc
c_string-cut encoded hashed (some i) there e =
    let same : take i encoded ≡ hashed = cc in rw (← same) (c_string-take encoded i there)

-- What hashPasswordArgon2id makes of the buffer is read back as it was made.
without_nulls-c_string :
    (made : Option Bytes) (hashed : Bytes)
    → without_nulls made ≡ some hashed
    → (encoded : Bytes) × (made ≡ some encoded) × (c_string hashed ≡ c_string encoded)
without_nulls-c_string none hashed e = cc
without_nulls-c_string (some encoded) hashed e =
    (encoded, refl, c_string-cut encoded hashed (index_of 0 encoded) refl e)

module _ (argon2 : Argon2) (hash : IsHash argon2) where
  pub hash_password-verifies :
      (password hashed : Bytes) (salt : List ℕ)
      → hash_password_argon2id argon2 salt password ≡ some hashed
      → argon2.verify (c_string hashed) password ≡ true
  unfolding hash_password_argon2id
  hash_password-verifies password hashed salt e =
      let n = argon2.encoded_length 3 32768 1 (length salt) 32 in
      let (encoded, made, same) =
        without_nulls-c_string (argon2.hash_encoded 3 32768 1 password salt 32 n) hashed e in
      rw same (hash.verifies password encoded salt n made)
