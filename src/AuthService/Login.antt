-- ===== src/AuthService/Login.antt =====
-- What a login that succeeds rests on.
use bartimaeus_app.Base.{
  ℕ, ◌≡◌, refl, Bool, true, false, List, [], ◌∷◌, Option, none, some, if◌then◌else◌,
}
use bartimaeus_app.Base.Bytes.{Bytes}
use bartimaeus_app.DbManager.{Connection}
use bartimaeus_app.Helpers.Password.{Argon2, verify_password_argon2id}
use bartimaeus_app.Mysql.{Stmt, Value, text, Column, text_column, Mysql}
use bartimaeus_app.Queries.{secure_select_user}
use bartimaeus_app.Database.{World, acquire, c_string, text_at, read_text, on_stmt, finish}
use bartimaeus_app.Database.Executed.{
  IsRun, IsExecuted, prepare_statement-some, bind_and_execute-true,
}
use bartimaeus_app.AuthService.{verified, fetch_hash, bind_hash, select_user, login_on, login}
use bartimaeus_app.Web.Services.{success, fail}

-- The columns of a login.
abbrev pub user_columns : List Column
user_columns = text_column 255 ∷ text_column 50 ∷ []

module _ {S : Type 0} (mysql : Mysql S) (argon2 : Argon2) (salt : S → List ℕ × S) where
  -- After the execution of the statement, in the state `executed`, the columns were bound, and the
  -- row that was fetched then holds a hash that the password fits.
  abbrev pub IsVerified : Bytes → Stmt → S → Type 0
  IsVerified password st executed =
      (row : List Value) × ((mysql.stmt_fetch st
          (mysql.stmt_bind_result st user_columns executed).1).0
        ≡ some row)
      × (argon2.verify (c_string (text_at 0 row)) password ≡ true)

  if-success : (b : Bool) → (if b then success else fail) ≡ success → b ≡ true
  if-success true e = refl
  if-success false e = cc

  verified-success :
      (c : Connection) (st : Stmt) (password : Bytes) (row : Option (List Value)) (executed : S)
      (w : World S)
      → (mysql.stmt_fetch st (mysql.stmt_bind_result st user_columns executed).1).0 ≡ row
      → (verified mysql argon2 salt c st password row w).0 ≡ success
      → IsVerified password st executed
  unfolding verified finish read_text verify_password_argon2id
  verified-success c st password none executed w f e = cc
  verified-success c st password (some row) executed w f e = (row, f, if-success _ e)

  fetch_hash-success :
      (c : Connection) (st : Stmt) (password : Bytes) (bound : Bool) (executed : S) (w : World S)
      → w.library ≡ (mysql.stmt_bind_result st user_columns executed).1
      → (fetch_hash mysql argon2 salt c st password bound w).0 ≡ success
      → IsVerified password st executed
  unfolding fetch_hash on_stmt finish
  fetch_hash-success c st password false executed w l e = cc
  fetch_hash-success c st password true executed w l e =
      verified-success c st password _ executed _ (rw (← l) refl) e

  bind_hash-success :
      (c : Connection) (st : Stmt) (password : Bytes) (executed : Bool) (w : World S)
      → (bind_hash mysql argon2 salt c st password executed w).0 ≡ success
      → (executed ≡ true) × IsVerified password st w.library
  unfolding bind_hash finish on_stmt
  bind_hash-success c st password false w e = cc
  bind_hash-success c st password true w e =
      (refl, fetch_hash-success c st password _ w.library _ refl e)

  select_user-success :
      (c : Connection) (username password : Bytes) (st : Option Stmt) (w : World S)
      → (select_user mysql argon2 salt c username password st w).0 ≡ success
      → (got : Stmt) × (end : S) × (st ≡ some got)
        × IsRun mysql (text username ∷ []) got w.library end
        × IsVerified password got end
  unfolding select_user
  select_user-success c username password none w e = cc
  select_user-success c username password (some st) w e =
      let (executed, checked) = bind_hash-success c st password _ _ e in
      (st, _, refl, bind_and_execute-true mysql st (text username ∷ []) w executed, checked)

  -- What a login from the state `w` rests on: on the connection that was borrowed the user was asked
  -- for by name, and the password fits the hash that the database delivered.
  abbrev pub IsProven : Bytes → Bytes → World S → Type 0
  IsProven username password w =
      (c : Connection) × (st : Stmt) × (end : S) × ((acquire mysql w).0 ≡ some c)
      × IsExecuted mysql c secure_select_user (text username ∷ []) st (acquire mysql w).1.library
          end
      × IsVerified password st end

  login_on-success :
      (username password : Bytes) (c : Option Connection) (w : World S)
      → (login_on mysql argon2 salt username password c w).0 ≡ success
      → (got : Connection) × (st : Stmt) × (end : S) × (c ≡ some got)
        × IsExecuted mysql got secure_select_user (text username ∷ []) st w.library end
        × IsVerified password st end
  unfolding login_on
  login_on-success username password none w e = cc
  login_on-success username password (some c) w e =
      let (st, end, found, run, checked) = select_user-success c username password _ _ e in
      let prepared = prepare_statement-some mysql c secure_select_user w st found in
      (c, st, end, refl, (_, prepared, run), checked)

  -- A login succeeds only when, on the connection that was borrowed, the statement that selects the
  -- user was made, prepared and run with the name, and Argon2 accepts the password for the hash in
  -- the row that was fetched next.
  pub login-success :
      (username password : Bytes) (w : World S)
      → (login mysql argon2 salt username password w).0 ≡ success
      → IsProven username password w
  unfolding login
  login-success username password w e = login_on-success username password _ _ e
