-- ===== src/BoardService/Results.antt =====
-- What the answer of deletePost in src/services/board_service.hpp says about the database.
use bartimaeus_app.Base.{
  ◌<◌, ◌≡◌, refl, Bool, true, false, List, [], ◌∷◌, Option, none, some, ltb→lt,
}
use bartimaeus_app.Base.Bytes.{Bytes}
use bartimaeus_app.Base.Int.{ℤ}
use bartimaeus_app.DbManager.{Connection}
use bartimaeus_app.Mysql.{Stmt, Value, text, int, Mysql}
use bartimaeus_app.Queries.{secure_delete_post}
use bartimaeus_app.Database.{World, acquire, on_stmt}
use bartimaeus_app.Database.Executed.{
  IsRun, IsExecuted, prepare_statement-some, bind_and_execute-true,
}
use bartimaeus_app.BoardService.{affected_if, remove_post, delete_post_on, delete_post}

module _ {S : Type 0} (mysql : Mysql S) where
  affected_if-true :
      (st : Stmt) (executed : Bool) (w : World S)
      → (affected_if mysql st executed w).0 ≡ true
      → (executed ≡ true) × (0 < mysql.stmt_affected_rows st w.library)
  unfolding affected_if on_stmt
  affected_if-true st true w e = (refl, ltb→lt 0 (mysql.stmt_affected_rows st w.library) e)
  affected_if-true st false w e = cc

  remove_post-true :
      (c : Connection) (params : List Value) (st : Option Stmt) (w : World S)
      → (remove_post mysql c params st w).0 ≡ true
      → (got : Stmt) × (end : S) × (st ≡ some got)
        × IsRun mysql params got w.library end
        × (0 < mysql.stmt_affected_rows got end)
  unfolding remove_post
  remove_post-true c params none w e = cc
  remove_post-true c params (some st) w e =
      let (executed, rows) = affected_if-true st _ _ e in
      (st, _, refl, bind_and_execute-true mysql st params w executed, rows)

  -- From the state `w` on, on the connection that was borrowed, the statement was made, prepared and
  -- run, and it changed a row.
  abbrev pub IsEffective : Bytes → List Value → World S → Type 0
  IsEffective query params w =
      (c : Connection) × (st : Stmt) × (end : S) × ((acquire mysql w).0 ≡ some c)
      × IsExecuted mysql c query params st (acquire mysql w).1.library end
      × (0 < mysql.stmt_affected_rows st end)

  delete_post_on-true :
      (params : List Value) (c : Option Connection) (w : World S)
      → (delete_post_on mysql params c w).0 ≡ true
      → (got : Connection) × (st : Stmt) × (end : S) × (c ≡ some got)
        × IsExecuted mysql got secure_delete_post params st w.library end
        × (0 < mysql.stmt_affected_rows st end)
  unfolding delete_post_on
  delete_post_on-true params none w e = cc
  delete_post_on-true params (some c) w e =
      let (st, end, found, run, rows) = remove_post-true c params _ _ e in
      let prepared = prepare_statement-some mysql c secure_delete_post w st found in
      (c, st, end, refl, (_, prepared, run), rows)

  -- When deletePost answers true, then, on the connection that was borrowed, the statement of the
  -- deletion, which asks for the id and for the author or an administrator, was made, prepared and
  -- run with the id, the user and the role, and it changed a row.
  pub delete_post-true :
      (id : ℤ) (username role : Bytes) (w : World S)
      → (delete_post mysql id username role w).0 ≡ true
      → IsEffective secure_delete_post (int id ∷ text username ∷ text role ∷ []) w
  unfolding delete_post
  delete_post-true id username role w e =
      delete_post_on-true (int id ∷ text username ∷ text role ∷ []) _ _ e
