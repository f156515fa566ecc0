-- ===== src/AuthService/RoundTrip.antt =====
-- A sign-up and the login that follows it, with one name and one password.
pub mod Hash
pub mod Stored
mod Fits
use bartimaeus_app.Base.{
  ℕ, suc, zero, ◌≡◌, refl, sym, ap, ◌∙◌, ◌≢◌, ◌⊎◌, inl, inr, Bool, true, false, Bool-cases,
  Option-cases, length, List, [], ◌∷◌, Option, none, some, arith, take, if◌then◌else◌, ◌==◌,
}
use bartimaeus_app.Base.Bytes.{Bytes}
use bartimaeus_app.DbManager.{Connection, get_connection}
use bartimaeus_app.Helpers.Password.{
  Argon2, without_nulls, hash_password_argon2id, verify_password_argon2id,
}
use bartimaeus_app.Helpers.Search.{index_of}
use bartimaeus_app.Mysql.{Stmt, Value, text, Mysql}
use bartimaeus_app.Queries.{secure_check_user, secure_insert_user, secure_select_user}
use bartimaeus_app.Database.{
  World, acquire, on_stmt, stmt_close, finish, c_string, text_at, read_text, bind_and_execute,
}
use bartimaeus_app.Database.Executed.{
  IsPrepared, IsRun, IsExecuted, prepare_statement-some, bind_and_execute-true, acquire-keeps,
}
use bartimaeus_app.AuthService.{
  hash_password, insert_result, insert_hashed, insert_user, unless_duplicate, after_check,
  check_user, sign_up_on, sign_up, verified, fetch_hash, bind_hash, select_user, login_on, login,
}
use bartimaeus_app.AuthService.Login.{user_columns}
use bartimaeus_app.AuthService.SignUp.{success_if}
use bartimaeus_app.Web.Services.{AuthResult, success, fail, db_error}
use bartimaeus_app.AuthService.RoundTrip.Hash.{IsHash, hash_password-verifies}
use bartimaeus_app.AuthService.RoundTrip.Stored.{IsUserTable, IsStored, sign_up-IsStored}
use bartimaeus_app.AuthService.RoundTrip.Fits.{login-fits}

module _ {S : Type 0} (mysql : Mysql S) (argon2 : Argon2) (salt : S → List ℕ × S)
    (stored : S → Bytes → Option Bytes) (table : IsUserTable mysql salt stored)
    (hash : IsHash argon2) where
  -- A login with the password that a stored hash was made of does not fail.
  pub login_of_stored :
      (username password : Bytes) (w : World S)
      → IsStored mysql argon2 salt stored table username password w.library
      → (login mysql argon2 salt username password w).0 ≢ fail
  login_of_stored username password w (hashed, random, held, made) e =
      let still : stored (acquire mysql w).1.library username ≡ some hashed =
        acquire-keeps mysql (λ s. stored s username ≡ some hashed) (λ c s k. rw (table.ping c s) k)
          (λ s k. rw (table.connect s) k) (λ c s k. rw (table.close c s) k) w held in
      let fits = hash_password-verifies argon2 hash password hashed random made in
      login-fits mysql argon2 salt username password w
        (λ c st end ran bound.
          let (row, fetched, text_is) = table.selected c st username hashed _ end ran still bound in
          (row, fetched, rw text_is fits))
        e

  result-cases : (r : AuthResult) → r ≢ fail → (r ≡ success) ⊎ (r ≡ db_error)
  result-cases success h = inl refl
  result-cases fail h = absurd (h refl)
  result-cases db_error h = inr refl

  -- When a sign-up succeeds, the login with the same name and password that follows it succeeds too,
  -- or it is answered with an error of the database; it is never refused. The hypotheses are that
  -- Argon2 accepts the passwords that it hashed, and that the server keeps the hash of an
  -- insertion and delivers it for a selection.
  pub sign_up-login :
      (username password : Bytes) (w : World S)
      → (sign_up mysql argon2 salt username password w).0 ≡ some success
      → ((login mysql argon2 salt username password
            (sign_up mysql argon2 salt username password w).1).0
          ≡ success)
        ⊎ ((login mysql argon2 salt username password
              (sign_up mysql argon2 salt username password w).1).0
            ≡ db_error)
  sign_up-login username password w e =
      let kept = sign_up-IsStored mysql argon2 salt stored table username password w e in
      result-cases _ (login_of_stored username password _ kept)
