-- ===== src/AuthService/RoundTrip/Fits.antt =====
-- What a login answers when the row that it asks for fits the password.
use bartimaeus_app.Base.{ℕ, ◌≡◌, refl, ◌≢◌, Bool, true, false, List, [], ◌∷◌, Option, none, some}
use bartimaeus_app.Base.Bytes.{Bytes}
use bartimaeus_app.DbManager.{Connection}
use bartimaeus_app.Helpers.Password.{Argon2, verify_password_argon2id}
use bartimaeus_app.Mysql.{Stmt, Value, text, Mysql}
use bartimaeus_app.Queries.{secure_select_user}
use bartimaeus_app.Database.{World, acquire, on_stmt, finish, c_string, text_at, read_text}
use bartimaeus_app.Database.Executed.{
  IsRun, IsExecuted, prepare_statement-some, bind_and_execute-true,
}
use bartimaeus_app.AuthService.{verified, fetch_hash, bind_hash, select_user, login_on, login}
use bartimaeus_app.AuthService.Login.{user_columns}
use bartimaeus_app.Web.Services.{fail}

module _ {S : Type 0} (mysql : Mysql S) (argon2 : Argon2) (salt : S → List ℕ × S) where
  -- If the columns can be bound, the row is there, and its hash fits the password.
  abbrev pub Delivers : Bytes → Stmt → S → Type 0
  Delivers password st executed =
      (mysql.stmt_bind_result st user_columns executed).0 ≡ true
      → (row : List Value) × ((mysql.stmt_fetch st
            (mysql.stmt_bind_result st user_columns executed).1).0
          ≡ some row)
        × (argon2.verify (c_string (text_at 0 row)) password ≡ true)

  verified-fits :
      (c : Connection) (st : Stmt) (password : Bytes) (fetched : Option (List Value))
      (row : List Value) (w : World S)
      → fetched ≡ some row
      → argon2.verify (c_string (text_at 0 row)) password ≡ true
      → (verified mysql argon2 salt c st password fetched w).0 ≢ fail
  unfolding verified finish read_text verify_password_argon2id
  verified-fits c st password none row w f v e = cc
  verified-fits c st password (some got) row w f v e =
      let same : got ≡ row = cc in
      let fits : argon2.verify (c_string (text_at 0 got)) password ≡ true = rw same v in
      let clash = rw fits at e in cc

  fetch_hash-fits :
      (c : Connection) (st : Stmt) (password : Bytes) (bound : Bool) (executed : S) (w : World S)
      → (mysql.stmt_bind_result st user_columns executed).0 ≡ bound
      → w.library ≡ (mysql.stmt_bind_result st user_columns executed).1
      → Delivers password st executed
      → (fetch_hash mysql argon2 salt c st password bound w).0 ≢ fail
  unfolding fetch_hash on_stmt finish
  fetch_hash-fits c st password false executed w b l d e = cc
  fetch_hash-fits c st password true executed w b l d e =
      let (row, fetched, fits) = d b in verified-fits c st password _ row _ (rw l fetched) fits e

  bind_hash-fits :
      (c : Connection) (st : Stmt) (password : Bytes) (executed : Bool) (w : World S)
      → (executed ≡ true → Delivers password st w.library)
      → (bind_hash mysql argon2 salt c st password executed w).0 ≢ fail
  unfolding bind_hash finish on_stmt
  bind_hash-fits c st password false w d e = cc
  bind_hash-fits c st password true w d e =
      fetch_hash-fits c st password _ w.library _ refl refl (d refl) e

  select_user-fits :
      (c : Connection) (username password : Bytes) (st : Option Stmt) (w : World S)
      → ((got : Stmt) (end : S)
          → st ≡ some got
          → IsRun mysql (text username ∷ []) got w.library end
          → Delivers password got end)
      → (select_user mysql argon2 salt c username password st w).0 ≢ fail
  unfolding select_user
  select_user-fits c username password none w d e = cc
  select_user-fits c username password (some st) w d e =
      bind_hash-fits c st password _ _
        (λ ran. d st _ refl (bind_and_execute-true mysql st (text username ∷ []) w ran)) e

  login_on-fits :
      (username password : Bytes) (c : Option Connection) (w : World S)
      → ((got : Connection) (st : Stmt) (end : S)
          → IsExecuted mysql got secure_select_user (text username ∷ []) st w.library end
          → Delivers password st end)
      → (login_on mysql argon2 salt username password c w).0 ≢ fail
  unfolding login_on
  login_on-fits username password none w d e = cc
  login_on-fits username password (some c) w d e =
      select_user-fits c username password _ _
        (λ st end found run.
          d c st end (_, prepare_statement-some mysql c secure_select_user w st found, run))
        e

  -- The same for a login, which borrows the connection first.
  pub login-fits :
      (username password : Bytes) (w : World S)
      → ((c : Connection) (st : Stmt) (end : S)
          → IsExecuted mysql c secure_select_user
              (text username ∷ [])
              st
              (acquire mysql w).1.library
              end
          → Delivers password st end)
      → (login mysql argon2 salt username password w).0 ≢ fail
  unfolding login
  login-fits username password w d e = login_on-fits username password _ _ d e
