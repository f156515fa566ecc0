-- ===== src/AuthService/SignUp.antt =====
-- What a sign-up that succeeds rests on.
use bartimaeus_app.Base.{
  ℕ, ◌≡◌, refl, Bool, true, false, List, [], ◌∷◌, Option, none, some, arith, ltb, if◌then◌else◌,
}
use bartimaeus_app.Base.Bytes.{Bytes}
use bartimaeus_app.DbManager.{Connection}
use bartimaeus_app.Helpers.Password.{Argon2, hash_password_argon2id}
use bartimaeus_app.Mysql.{Stmt, text, Mysql}
use bartimaeus_app.Queries.{secure_check_user, secure_insert_user}
use bartimaeus_app.Database.{World, acquire, on_stmt, stmt_close, finish}
use bartimaeus_app.Database.Executed.{
  IsPrepared, IsRun, IsExecuted, prepare_statement-some, bind_and_execute-true,
}
use bartimaeus_app.AuthService.{
  hash_password, insert_result, insert_hashed, insert_user, unless_duplicate, after_check,
  check_user, sign_up_on, sign_up,
}
use bartimaeus_app.Web.Services.{success, db_error}

not_ltb→zero : (n : ℕ) → ltb 0 n ≡ false → n ≡ 0
not_ltb→zero n e = ground arith

module _ {S : Type 0} (mysql : Mysql S) (argon2 : Argon2) (salt : S → List ℕ × S) where
  -- The insertion ran with the name and with an Argon2id hash of the password under fresh salt.
  abbrev pub IsInserted : Bytes → Bytes → Stmt → S → Type 0
  IsInserted username password st prepared_state =
      (hashed : Bytes) × (end : S) × (hash_password_argon2id argon2 (salt prepared_state).0 password
        ≡ some hashed)
      × IsRun mysql (text username ∷ text hashed ∷ []) st (salt prepared_state).1 end

  pub success_if : (ok : Bool) → some (if ok then success else db_error) ≡ some success → ok ≡ true
  success_if true e = refl
  success_if false e = cc

  insert_hashed-success :
      (c : Connection) (st : Stmt) (username : Bytes) (hashed : Option Bytes) (w : World S)
      → (insert_hashed mysql argon2 salt c st username hashed w).0 ≡ some success
      → (h : Bytes) × (end : S) × (hashed ≡ some h)
        × IsRun mysql (text username ∷ text h ∷ []) st w.library end
  unfolding insert_hashed insert_result
  insert_hashed-success c st username none w e = cc
  insert_hashed-success c st username (some h) w e =
      (h, _, refl, bind_and_execute-true mysql st (text username ∷ text h ∷ []) w (success_if _ e))

  insert_user-success :
      (c : Connection) (username password : Bytes) (st : Option Stmt) (w : World S)
      → (insert_user mysql argon2 salt c username password st w).0 ≡ some success
      → (got : Stmt) × (st ≡ some got) × IsInserted username password got w.library
  unfolding insert_user hash_password
  insert_user-success c username password none w e = cc
  insert_user-success c username password (some st) w e =
      let (h, end, hashed, run) = insert_hashed-success c st username _ _ e in
      (st, refl, (h, end, hashed, run))

  -- From the state `s` on, the insertion was made, prepared and run.
  abbrev pub IsNew : Connection → Bytes → Bytes → S → Type 0
  IsNew c username password s =
      (st : Stmt) × (middle : S) × IsPrepared mysql c secure_insert_user st s middle
      × IsInserted username password st middle

  -- After the execution of the check, in the state `executed`, its result was stored and had no row,
  -- and the insertion came after its end.
  abbrev pub IsUnique : Connection → Bytes → Bytes → Stmt → S → Type 0
  IsUnique c username password st executed =
      (mysql.stmt_num_rows st (mysql.stmt_store_result st executed).1 ≡ 0)
      × IsNew c username password (mysql.stmt_close st (mysql.stmt_store_result st executed).1)

  unless_duplicate-success :
      (c : Connection) (st : Stmt) (username password : Bytes) (is_duplicate : Bool) (w : World S)
      → (unless_duplicate mysql argon2 salt c st username password is_duplicate w).0 ≡ some success
      → (is_duplicate ≡ false) × IsNew c username password (mysql.stmt_close st w.library)
  unfolding unless_duplicate stmt_close finish
  unless_duplicate-success c st username password true w e = cc
  unless_duplicate-success c st username password false w e =
      let (got, found, inserted) = insert_user-success c username password _ _ e in
      (refl, (got, _, prepare_statement-some mysql c secure_insert_user _ got found, inserted))

  after_check-success :
      (c : Connection) (st : Stmt) (username password : Bytes) (checked : Bool) (w : World S)
      → (after_check mysql argon2 salt c st username password checked w).0 ≡ some success
      → (checked ≡ true) × IsUnique c username password st w.library
  unfolding after_check on_stmt finish
  after_check-success c st username password false w e = cc
  after_check-success c st username password true w e =
      let (none_yet, new) = unless_duplicate-success c st username password _ _ e in
      (refl, (not_ltb→zero _ none_yet, new))

  check_user-success :
      (c : Connection) (username password : Bytes) (st : Option Stmt) (w : World S)
      → (check_user mysql argon2 salt c username password st w).0 ≡ some success
      → (got : Stmt) × (end : S) × (st ≡ some got)
        × IsRun mysql (text username ∷ []) got w.library end
        × IsUnique c username password got end
  unfolding check_user
  check_user-success c username password none w e = cc
  check_user-success c username password (some st) w e =
      let (checked, unique) = after_check-success c st username password _ _ e in
      let run = bind_and_execute-true mysql st (text username ∷ []) w checked in
      (st, _, refl, run, unique)

  -- What a sign-up from the state `w` rests on.
  abbrev pub IsRegistered : Bytes → Bytes → World S → Type 0
  IsRegistered username password w =
      (c : Connection) × (st : Stmt) × (end : S) × ((acquire mysql w).0 ≡ some c)
      × IsExecuted mysql c secure_check_user (text username ∷ []) st (acquire mysql w).1.library end
      × IsUnique c username password st end

  sign_up_on-success :
      (username password : Bytes) (c : Option Connection) (w : World S)
      → (sign_up_on mysql argon2 salt username password c w).0 ≡ some success
      → (got : Connection) × (st : Stmt) × (end : S) × (c ≡ some got)
        × IsExecuted mysql got secure_check_user (text username ∷ []) st w.library end
        × IsUnique got username password st end
  unfolding sign_up_on
  sign_up_on-success username password none w e = cc
  sign_up_on-success username password (some c) w e =
      let (st, end, found, run, unique) = check_user-success c username password _ _ e in
      let prepared = prepare_statement-some mysql c secure_check_user w st found in
      (c, st, end, refl, (_, prepared, run), unique)

  -- A sign-up succeeds only when, on the connection that was borrowed, the check for the name was
  -- made, prepared and run and its result has no row, and after its end the insertion was made,
  -- prepared and run with the name and with an Argon2id hash of the password under fresh salt.
  pub sign_up-success :
      (username password : Bytes) (w : World S)
      → (sign_up mysql argon2 salt username password w).0 ≡ some success
      → IsRegistered username password w
  unfolding sign_up
  sign_up-success username password w e = sign_up_on-success username password _ _ e
