-- ===== src/AuthService/Protocol.antt =====
-- No other method of AuthService than signUp leaves a statement open or a connection borrowed.
use bartimaeus_app.Base.{ℕ, refl, sym, Bool, true, false, List, [], ◌∷◌, Option, none, some}
use bartimaeus_app.Base.Bytes.{Bytes}
use bartimaeus_app.DbManager.{Connection}
use bartimaeus_app.Helpers.Password.{Argon2}
use bartimaeus_app.Mysql.{Stmt, Value, text, text_column, Mysql}
use bartimaeus_app.Queries.{secure_select_user, secure_select_user_role, secure_select_all_users}
use bartimaeus_app.Database.{
  failed, executed, receiving, idle, prepared, text_at, stored_stage, stmt_store_result,
}
use bartimaeus_app.Database.Protocol.{
  Moves, ok_stage, acquire-Moves, fetch-Moves, store-Moves, stmt_execute_now-Moves,
  stmt_bind_result-Moves, finish-Moves, prepare_statement-Moves, bind_and_execute-Moves,
  after_acquire, after_prepare,
}
use bartimaeus_app.Database.Rows.{
  RowFits, IsRoomy, read_text-Moves, stmt_fetch-Moves, fetch_all-Moves,
}
use bartimaeus_app.Database.Placeholders.{
  placeholders-secure_select_user, placeholders-secure_select_user_role,
  placeholders-secure_select_all_users,
}
use bartimaeus_app.AuthService.{
  verified, fetch_hash, bind_hash, select_user, login_on, login, fetch_role, bind_role, select_role,
  get_user_role_on, get_user_role, user_of_row, fetch_users, bind_users, select_users,
  get_all_users_on, get_all_users,
}

module _ {S : Type 0} (mysql : Mysql S) where
  fetch_role-Moves :
      (c : Connection) (st : Stmt) (ok : Bool)
      → Moves (prepared c st (ok_stage receiving ok)) (fetch_role mysql c st ok) (λ x. idle)
  unfolding fetch_role
  fetch_role-Moves c st false w h = finish-Moves mysql c st failed w h
  fetch_role-Moves c st true w h =
      finish-Moves mysql c st receiving _ (fetch-Moves mysql c st true w h)

  bind_role-Moves :
      (c : Connection) (st : Stmt) (ok : Bool)
      → Moves (prepared c st (ok_stage executed ok)) (bind_role mysql c st ok) (λ x. idle)
  unfolding bind_role
  bind_role-Moves c st false w h = finish-Moves mysql c st failed w h
  bind_role-Moves c st true w h =
      fetch_role-Moves c st _ _ (stmt_bind_result-Moves mysql c st (text_column 50 ∷ []) w h)

  select_role-Moves :
      (c : Connection) (username : Bytes) (st : Option Stmt)
      → Moves
          (after_prepare c secure_select_user_role st)
          (select_role mysql c username st)
          (λ x. idle)
  unfolding select_role
  select_role-Moves c username none w h = h
  select_role-Moves c username (some st) w h = bind_role-Moves c st _ _ (
      bind_and_execute-Moves mysql c st (text username ∷ []) _ placeholders-secure_select_user_role
        w h)

  get_user_role_on-Moves :
      (username : Bytes) (c : Option Connection)
      → Moves (after_acquire c) (get_user_role_on mysql username c) (λ x. idle)
  unfolding get_user_role_on
  get_user_role_on-Moves username none w h = h
  get_user_role_on-Moves username (some c) w h =
      select_role-Moves c username _ _ (prepare_statement-Moves mysql c secure_select_user_role w h)

  pub get_user_role-Moves :
      (username : Bytes) → Moves idle (get_user_role mysql username) (λ x. idle)
  unfolding get_user_role
  get_user_role-Moves username w h = get_user_role_on-Moves username _ _ (acquire-Moves mysql w h)

  fetch_users-Moves :
      (c : Connection) (st : Stmt) (ok : Bool)
      → IsRoomy mysql
      → Moves (prepared c st (ok_stage receiving ok)) (fetch_users mysql c st ok) (λ x. idle)
  unfolding fetch_users user_of_row
  fetch_users-Moves c st false roomy w h = finish-Moves mysql c st failed w h
  fetch_users-Moves c st true roomy w h =
      let stored = (stmt_store_result mysql st w).0 in
      finish-Moves mysql c st (stored_stage receiving stored) _ (
        fetch_all-Moves mysql roomy c st stored user_of_row (λ row fits v k. k) _
          (store-Moves mysql c st receiving (λ ok. refl) w h))

  bind_users-Moves :
      (c : Connection) (st : Stmt) (ok : Bool)
      → IsRoomy mysql
      → Moves (prepared c st (ok_stage executed ok)) (bind_users mysql c st ok) (λ x. idle)
  unfolding bind_users
  bind_users-Moves c st false roomy w h = finish-Moves mysql c st failed w h
  bind_users-Moves c st true roomy w h =
      fetch_users-Moves c st _ roomy _
        (stmt_bind_result-Moves mysql c st (text_column 255 ∷ text_column 50 ∷ []) w h)

  select_users-Moves :
      (c : Connection) (st : Option Stmt)
      → IsRoomy mysql
      → Moves (after_prepare c secure_select_all_users st) (select_users mysql c st) (λ x. idle)
  unfolding select_users
  select_users-Moves c none roomy w h = h
  select_users-Moves c (some st) roomy w h =
      bind_users-Moves c st _ roomy _
        (stmt_execute_now-Moves mysql c st _ (sym placeholders-secure_select_all_users) w h)

  get_all_users_on-Moves :
      (c : Option Connection)
      → IsRoomy mysql
      → Moves (after_acquire c) (get_all_users_on mysql c) (λ x. idle)
  unfolding get_all_users_on
  get_all_users_on-Moves none roomy w h = h
  get_all_users_on-Moves (some c) roomy w h =
      select_users-Moves c _ roomy _ (prepare_statement-Moves mysql c secure_select_all_users w h)

  pub get_all_users-Moves : IsRoomy mysql → Moves idle (get_all_users mysql) (λ x. idle)
  unfolding get_all_users
  get_all_users-Moves roomy w h = get_all_users_on-Moves _ roomy _ (acquire-Moves mysql w h)

module _ {S : Type 0} (mysql : Mysql S) (argon2 : Argon2) (salt : S → List ℕ × S) where
  verified-Moves :
      (c : Connection) (st : Stmt) (password : Bytes) (row : List Value)
      → RowFits row
      → Moves
          (prepared c st receiving)
          (verified mysql argon2 salt c st password (some row))
          (λ x. idle)
  unfolding verified
  verified-Moves c st password row fits w h =
      finish-Moves mysql c st receiving _
        (read_text-Moves (prepared c st receiving) 255 (text_at 0 row) fits.first w h)

  fetch_hash-Moves :
      (c : Connection) (st : Stmt) (password : Bytes) (ok : Bool)
      → IsRoomy mysql
      → Moves
          (prepared c st (ok_stage receiving ok))
          (fetch_hash mysql argon2 salt c st password ok)
          (λ x. idle)
  unfolding fetch_hash verified
  fetch_hash-Moves c st password false roomy w h = finish-Moves mysql c st failed w h
  fetch_hash-Moves c st password true roomy w h =
      stmt_fetch-Moves mysql roomy c st true (verified mysql argon2 salt c st password) (λ x. idle)
        (λ v k. finish-Moves mysql c st receiving v k)
        (λ row fits. verified-Moves c st password row fits) w h

  bind_hash-Moves :
      (c : Connection) (st : Stmt) (password : Bytes) (ok : Bool)
      → IsRoomy mysql
      → Moves
          (prepared c st (ok_stage executed ok))
          (bind_hash mysql argon2 salt c st password ok)
          (λ x. idle)
  unfolding bind_hash
  bind_hash-Moves c st password false roomy w h = finish-Moves mysql c st failed w h
  bind_hash-Moves c st password true roomy w h =
      fetch_hash-Moves c st password _ roomy _
        (stmt_bind_result-Moves mysql c st (text_column 255 ∷ text_column 50 ∷ []) w h)

  select_user-Moves :
      (c : Connection) (username password : Bytes) (st : Option Stmt)
      → IsRoomy mysql
      → Moves
          (after_prepare c secure_select_user st)
          (select_user mysql argon2 salt c username password st)
          (λ x. idle)
  unfolding select_user
  select_user-Moves c username password none roomy w h = h
  select_user-Moves c username password (some st) roomy w h =
      bind_hash-Moves c st password _ roomy _ (
        bind_and_execute-Moves mysql c st (text username ∷ []) _ placeholders-secure_select_user w
          h)

  login_on-Moves :
      (username password : Bytes) (c : Option Connection)
      → IsRoomy mysql
      → Moves (after_acquire c) (login_on mysql argon2 salt username password c) (λ x. idle)
  unfolding login_on
  login_on-Moves username password none roomy w h = h
  login_on-Moves username password (some c) roomy w h =
      select_user-Moves c username password _ roomy _
        (prepare_statement-Moves mysql c secure_select_user w h)

  pub login-Moves :
      (username password : Bytes)
      → IsRoomy mysql
      → Moves idle (login mysql argon2 salt username password) (λ x. idle)
  unfolding login
  login-Moves username password roomy w h =
      login_on-Moves username password _ roomy _ (acquire-Moves mysql w h)
