-- ===== src/AuthService/Leaves.antt =====
-- What signUp leaves open, by its result.
use bartimaeus_app.Base.{ℕ, refl, Bool, true, false, List, [], ◌∷◌, Option, none, some}
use bartimaeus_app.Base.Bytes.{Bytes}
use bartimaeus_app.DbManager.{Connection}
use bartimaeus_app.Helpers.Password.{Argon2}
use bartimaeus_app.Mysql.{Stmt, text, Mysql}
use bartimaeus_app.Queries.{secure_check_user, secure_insert_user}
use bartimaeus_app.Database.{
  World, Stage, stored_stage, stmt_store_result, failed, executed, parsed, placeholders, idle,
  prepared,
}
use bartimaeus_app.Database.Protocol.{
  At, ok_stage, acquire-Moves, look-Moves, store-Moves, stmt_close-Moves, finish-Moves,
  prepare_statement-Moves, bind_and_execute-Moves, after_acquire, after_prepare,
}
use bartimaeus_app.Database.Placeholders.{
  placeholders-secure_check_user, placeholders-secure_insert_user,
}
use bartimaeus_app.AuthService.{
  hash_password, insert_hashed, insert_user, unless_duplicate, after_check, check_user, sign_up_on,
  sign_up,
}
use bartimaeus_app.Web.Services.{AuthResult}

module _ {S : Type 0} (mysql : Mysql S) (argon2 : Argon2) (salt : S → List ℕ × S) where
  -- What an answer of signUp leaves: nothing open; an exception leaves the statement and the
  -- connection of the insertion.
  abbrev pub Leaves : Option AuthResult → World S → Type 0
  Leaves none w =
      (c : Connection) × (st : Stmt) × At (prepared c st (parsed (placeholders secure_insert_user)))
        w
  Leaves (some result) w = At idle w

  insert_hashed-Leaves :
      (c : Connection) (st : Stmt) (username : Bytes) (hashed : Option Bytes) (w : World S)
      → At (prepared c st (parsed (placeholders secure_insert_user))) w
      → Leaves
          (insert_hashed mysql argon2 salt c st username hashed w).0
          (insert_hashed mysql argon2 salt c st username hashed w).1
  unfolding insert_hashed
  insert_hashed-Leaves c st username none w h = (c, st, h)
  insert_hashed-Leaves c st username (some hashed) w h = finish-Moves mysql c st _ _ (
      bind_and_execute-Moves mysql c st (text username ∷ text hashed ∷ []) _
        placeholders-secure_insert_user w h)

  insert_user-Leaves :
      (c : Connection) (username password : Bytes) (st : Option Stmt) (w : World S)
      → At (after_prepare c secure_insert_user st) w
      → Leaves
          (insert_user mysql argon2 salt c username password st w).0
          (insert_user mysql argon2 salt c username password st w).1
  unfolding insert_user hash_password
  insert_user-Leaves c username password none w h = h
  insert_user-Leaves c username password (some st) w h =
      insert_hashed-Leaves c st username _ _
        (record { phase = h.phase; conserved = h.conserved; bounded = h.bounded })

  unless_duplicate-Leaves :
      (c : Connection) (st : Stmt) (username password : Bytes) (is_duplicate : Bool) (stage : Stage)
      (w : World S)
      → At (prepared c st stage) w
      → Leaves
          (unless_duplicate mysql argon2 salt c st username password is_duplicate w).0
          (unless_duplicate mysql argon2 salt c st username password is_duplicate w).1
  unfolding unless_duplicate
  unless_duplicate-Leaves c st username password true stage w h = finish-Moves mysql c st stage w h
  unless_duplicate-Leaves c st username password false stage w h =
      insert_user-Leaves c username password _ _ (
        prepare_statement-Moves mysql c secure_insert_user _
          (stmt_close-Moves mysql c st stage w h))

  after_check-Leaves :
      (c : Connection) (st : Stmt) (username password : Bytes) (checked : Bool) (w : World S)
      → At (prepared c st (ok_stage executed checked)) w
      → Leaves
          (after_check mysql argon2 salt c st username password checked w).0
          (after_check mysql argon2 salt c st username password checked w).1
  unfolding after_check
  after_check-Leaves c st username password false w h = finish-Moves mysql c st failed w h
  after_check-Leaves c st username password true w h =
      let stored = (stmt_store_result mysql st w).0 in
      unless_duplicate-Leaves c st username password _ (stored_stage executed stored) _ (
        look-Moves mysql c st (λ s. (mysql.stmt_num_rows st s, s)) stored _
          (store-Moves mysql c st executed (λ ok. refl) w h))

  check_user-Leaves :
      (c : Connection) (username password : Bytes) (st : Option Stmt) (w : World S)
      → At (after_prepare c secure_check_user st) w
      → Leaves
          (check_user mysql argon2 salt c username password st w).0
          (check_user mysql argon2 salt c username password st w).1
  unfolding check_user
  check_user-Leaves c username password none w h = h
  check_user-Leaves c username password (some st) w h =
      after_check-Leaves c st username password _ _ (
        bind_and_execute-Moves mysql c st (text username ∷ []) _ placeholders-secure_check_user w h)

  sign_up_on-Leaves :
      (username password : Bytes) (c : Option Connection) (w : World S)
      → At (after_acquire c) w
      → Leaves
          (sign_up_on mysql argon2 salt username password c w).0
          (sign_up_on mysql argon2 salt username password c w).1
  unfolding sign_up_on
  sign_up_on-Leaves username password none w h = h
  sign_up_on-Leaves username password (some c) w h =
      check_user-Leaves c username password _ _
        (prepare_statement-Moves mysql c secure_check_user w h)

  -- Whatever the library answers, a signUp that starts with nothing open and all connections
  -- accounted for uses only what is open, and ends in the same way when it returns; when the hash
  -- throws, it leaves a statement open and its connection out of the pool.
  pub sign_up-Leaves :
      (username password : Bytes) (w : World S)
      → At idle w
      → Leaves
          (sign_up mysql argon2 salt username password w).0
          (sign_up mysql argon2 salt username password w).1
  unfolding sign_up
  sign_up-Leaves username password w h =
      sign_up_on-Leaves username password _ _ (acquire-Moves mysql w h)
