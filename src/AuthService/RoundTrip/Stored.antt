-- ===== src/AuthService/RoundTrip/Stored.antt =====
-- What a sign-up leaves in the table of the users, on a server that stores them.
use bartimaeus_app.Base.{ℕ, ◌≡◌, refl, Bool, true, false, List, [], ◌∷◌, Option, none, some}
use bartimaeus_app.Base.Bytes.{Bytes}
use bartimaeus_app.DbManager.{Connection}
use bartimaeus_app.Helpers.Password.{Argon2, hash_password_argon2id}
use bartimaeus_app.Mysql.{Stmt, Value, text, Mysql}
use bartimaeus_app.Queries.{secure_insert_user, secure_select_user}
use bartimaeus_app.Database.{World, stmt_close, finish, text_at, bind_and_execute}
use bartimaeus_app.Database.Executed.{
  IsPrepared, IsRun, IsExecuted, prepare_statement-some, bind_and_execute-true,
}
use bartimaeus_app.AuthService.{
  hash_password, insert_result, insert_hashed, insert_user, unless_duplicate, after_check,
  check_user, sign_up_on, sign_up,
}
use bartimaeus_app.AuthService.Login.{user_columns}
use bartimaeus_app.AuthService.SignUp.{success_if}
use bartimaeus_app.Web.Services.{success}

-- What the program relies on of the server: `stored` is the hash that the table holds for a name. An
-- insertion stores it, a selection delivers it when its columns can be bound, and the calls that
-- are about a connection or the end of a statement change no table.
pub record IsUserTable {S : Type 0} (mysql : Mysql S) (salt : S → List ℕ × S)
    (stored : S → Bytes → Option Bytes) : Type 0 where
  pub inserted :
      (c : Connection) (st : Stmt) (username hashed : Bytes) (s middle end : S)
      → IsPrepared mysql c secure_insert_user st s middle
      → IsRun mysql (text username ∷ text hashed ∷ []) st (salt middle).1 end
      → stored end username ≡ some hashed
  pub selected :
      (c : Connection) (st : Stmt) (username hashed : Bytes) (s end : S)
      → IsExecuted mysql c secure_select_user (text username ∷ []) st s end
      → stored s username ≡ some hashed
      → (mysql.stmt_bind_result st user_columns end).0 ≡ true
      → (row : List Value) × ((mysql.stmt_fetch st (mysql.stmt_bind_result st user_columns end).1).0
          ≡ some row)
        × (text_at 0 row ≡ hashed)
  pub ping : (c : Connection) (s : S) → stored (mysql.ping c s).1 ≡ stored s
  pub connect : (s : S) → stored (mysql.connect s).1 ≡ stored s
  pub close : (c : Connection) (s : S) → stored (mysql.close c s) ≡ stored s
  pub stmt_close : (st : Stmt) (s : S) → stored (mysql.stmt_close st s) ≡ stored s

module _ {S : Type 0} (mysql : Mysql S) (argon2 : Argon2) (salt : S → List ℕ × S)
    (stored : S → Bytes → Option Bytes) (table : IsUserTable mysql salt stored) where
  -- The table holds, under the name, a hash that was made of the password.
  abbrev pub IsStored : Bytes → Bytes → S → Type 0
  IsStored username password s =
      (hashed : Bytes) × (random : List ℕ) × (stored s username ≡ some hashed)
      × (hash_password_argon2id argon2 random password ≡ some hashed)

  inserted_from :
      (c : Connection) (st : Stmt) (username hashed : Bytes) (s middle start end : S)
      → IsPrepared mysql c secure_insert_user st s middle
      → start ≡ (salt middle).1
      → IsRun mysql (text username ∷ text hashed ∷ []) st start end
      → stored end username ≡ some hashed
  inserted_from c st username hashed s middle start end p l run =
      table.inserted c st username hashed s middle end p (rw l at run)

  insert_hashed-IsStored :
      (c : Connection) (st : Stmt) (username password : Bytes) (hashed : Option Bytes)
      (s middle : S) (w : World S)
      → IsPrepared mysql c secure_insert_user st s middle
      → hash_password_argon2id argon2 (salt middle).0 password ≡ hashed
      → w.library ≡ (salt middle).1
      → (insert_hashed mysql argon2 salt c st username hashed w).0 ≡ some success
      → IsStored username password
          (insert_hashed mysql argon2 salt c st username hashed w).1.library
  unfolding insert_hashed insert_result finish stmt_close
  insert_hashed-IsStored c st username password none s middle w p made l e = cc
  insert_hashed-IsStored c st username password (some hashed) s middle w p made l e =
      let params = text username ∷ text hashed ∷ [] in
      let run = bind_and_execute-true mysql st params w (success_if mysql argon2 salt _ e) in
      let kept = table.stmt_close st (bind_and_execute mysql st params w).1.library in
      (
        hashed,
        (salt middle).0,
        rw kept (inserted_from c st username hashed s middle w.library _ p l run),
        made,
      )

  insert_user-IsStored :
      (c : Connection) (username password : Bytes) (st : Option Stmt) (s : S) (w : World S)
      → ((got : Stmt) → st ≡ some got → IsPrepared mysql c secure_insert_user got s w.library)
      → (insert_user mysql argon2 salt c username password st w).0 ≡ some success
      → IsStored username password
          (insert_user mysql argon2 salt c username password st w).1.library
  unfolding insert_user hash_password
  insert_user-IsStored c username password none s w p e = cc
  insert_user-IsStored c username password (some st) s w p e =
      insert_hashed-IsStored c st username password _ s w.library _ (p st refl) refl refl e

  unless_duplicate-IsStored :
      (c : Connection) (st : Stmt) (username password : Bytes) (is_duplicate : Bool) (w : World S)
      → (unless_duplicate mysql argon2 salt c st username password is_duplicate w).0 ≡ some success
      → IsStored username password
          (unless_duplicate mysql argon2 salt c st username password is_duplicate w).1.library
  unfolding unless_duplicate
  unless_duplicate-IsStored c st username password true w e = cc
  unless_duplicate-IsStored c st username password false w e =
      insert_user-IsStored c username password _ _ _
        (λ got found. prepare_statement-some mysql c secure_insert_user _ got found) e

  after_check-IsStored :
      (c : Connection) (st : Stmt) (username password : Bytes) (checked : Bool) (w : World S)
      → (after_check mysql argon2 salt c st username password checked w).0 ≡ some success
      → IsStored username password
          (after_check mysql argon2 salt c st username password checked w).1.library
  unfolding after_check
  after_check-IsStored c st username password false w e = cc
  after_check-IsStored c st username password true w e =
      unless_duplicate-IsStored c st username password _ _ e

  check_user-IsStored :
      (c : Connection) (username password : Bytes) (st : Option Stmt) (w : World S)
      → (check_user mysql argon2 salt c username password st w).0 ≡ some success
      → IsStored username password (check_user mysql argon2 salt c username password st w).1.library
  unfolding check_user
  check_user-IsStored c username password none w e = cc
  check_user-IsStored c username password (some st) w e =
      after_check-IsStored c st username password _ _ e

  sign_up_on-IsStored :
      (username password : Bytes) (c : Option Connection) (w : World S)
      → (sign_up_on mysql argon2 salt username password c w).0 ≡ some success
      → IsStored username password (sign_up_on mysql argon2 salt username password c w).1.library
  unfolding sign_up_on
  sign_up_on-IsStored username password none w e = cc
  sign_up_on-IsStored username password (some c) w e = check_user-IsStored c username password _ _ e

  -- A sign-up that succeeds leaves the name in the table, with a hash of the password.
  pub sign_up-IsStored :
      (username password : Bytes) (w : World S)
      → (sign_up mysql argon2 salt username password w).0 ≡ some success
      → IsStored username password (sign_up mysql argon2 salt username password w).1.library
  unfolding sign_up
  sign_up-IsStored username password w e = sign_up_on-IsStored username password _ _ e
