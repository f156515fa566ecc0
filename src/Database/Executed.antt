-- ===== src/Database/Executed.antt =====
-- What a success of the shared steps says about the calls of the library.
use bartimaeus_app.Base.{
  ◌≡◌, refl, Bool, true, false, List, [], ◌∷◌, Option, none, some, arith, Bool-cases, inl, inr,
}
use bartimaeus_app.Base.Bytes.{Bytes}
use bartimaeus_app.DbManager.{Connection}
use bartimaeus_app.Mysql.{Stmt, Value, Mysql}
use bartimaeus_app.Database.{
  acquire, borrow, reach, stmt_init, World, on_stmt, finish, keep_prepared, prepare_on,
  prepare_statement, execute_if, bind_and_execute,
}

module _ {S : Type 0} (mysql : Mysql S) where
  -- From the state `s` on, the statement was made on the connection and prepared for the text, and
  -- `end` is the state after that.
  abbrev pub IsPrepared : Connection → Bytes → Stmt → S → S → Type 0
  IsPrepared c query st s end =
      ((mysql.stmt_init c s).0 ≡ some st)
      × ((mysql.stmt_prepare st query (mysql.stmt_init c s).1).0 ≡ true)
      × (end ≡ (mysql.stmt_prepare st query (mysql.stmt_init c s).1).1)

  -- The parameters were bound in the state `s`, the statement was executed next, and `end` is the
  -- state after that.
  abbrev pub IsRun : List Value → Stmt → S → S → Type 0
  IsRun params st s end =
      ((mysql.stmt_bind_param st params s).0 ≡ true)
      × ((mysql.stmt_execute st (mysql.stmt_bind_param st params s).1).0 ≡ true)
      × (end ≡ (mysql.stmt_execute st (mysql.stmt_bind_param st params s).1).1)

  -- One after the other.
  abbrev pub IsExecuted : Connection → Bytes → List Value → Stmt → S → S → Type 0
  IsExecuted c query params st s end =
      (middle : S) × IsPrepared c query st s middle × IsRun params st middle end

  keep_prepared-some :
      (c : Connection) (st : Stmt) (ok : Bool) (w : World S) (got : Stmt)
      → (keep_prepared mysql c st ok w).0 ≡ some got
      → (ok ≡ true) × (got ≡ st) × ((keep_prepared mysql c st ok w).1.library ≡ w.library)
  unfolding keep_prepared finish
  keep_prepared-some c st true w got e = (refl, ground arith, refl)
  keep_prepared-some c st false w got e = cc

  prepare_on-some :
      (c : Connection) (query : Bytes) (st : Option Stmt) (s : S) (w : World S) (got : Stmt)
      → (mysql.stmt_init c s).0 ≡ st
      → w.library ≡ (mysql.stmt_init c s).1
      → (prepare_on mysql c query st w).0 ≡ some got
      → IsPrepared c query got s (prepare_on mysql c query st w).1.library
  unfolding prepare_on on_stmt
  prepare_on-some c query none s w got made l e = cc
  prepare_on-some c query (some st) s w got made l e =
      let (ok, same, kept) = keep_prepared-some c st _ _ got e in rw (← l, same) (made, ok, kept)

  pub prepare_statement-some :
      (c : Connection) (query : Bytes) (w : World S) (got : Stmt)
      → (prepare_statement mysql c query w).0 ≡ some got
      → IsPrepared c query got w.library (prepare_statement mysql c query w).1.library
  unfolding prepare_statement stmt_init
  prepare_statement-some c query w got e = prepare_on-some c query _ w.library _ got refl refl e

  execute_if-true :
      (st : Stmt) (bound : Bool) (w : World S)
      → (execute_if mysql st bound w).0 ≡ true
      → (bound ≡ true)
        × ((mysql.stmt_execute st w.library).0 ≡ true)
        × ((execute_if mysql st bound w).1.library ≡ (mysql.stmt_execute st w.library).1)
  unfolding execute_if on_stmt
  execute_if-true st true w e = (refl, e, refl)
  execute_if-true st false w e = cc

  pub bind_and_execute-true :
      (st : Stmt) (params : List Value) (w : World S)
      → (bind_and_execute mysql st params w).0 ≡ true
      → IsRun params st w.library (bind_and_execute mysql st params w).1.library
  unfolding bind_and_execute on_stmt
  bind_and_execute-true st params w e = execute_if-true st _ _ e

  -- What the calls of getConnection keep of the library's state, it keeps.
  module _ (P : S → Type 0) (ping : (c : Connection) (s : S) → P s → P (mysql.ping c s).1)
      (connect : (s : S) → P s → P (mysql.connect s).1)
      (close : (c : Connection) (s : S) → P s → P (mysql.close c s)) where
    borrow-keeps : (c : Connection) (w : World S) → P w.library → P (borrow mysql c w).1.library
    unfolding borrow reach
    borrow-keeps c w h =
        let answered = ping c w.library h in
        elim (Bool-cases (mysql.ping c w.library).0) [
          | inl alive ↦ rw (borrow, reach, alive) answered
          | inr dead ↦ rw (borrow, reach, dead) (connect _ (close c _ answered))
        ]

    acquire_from :
        (pool : List Connection) (w : World S)
        → w.manager.connection_pool ≡ pool
        → P w.library
        → P (acquire mysql w).1.library
    unfolding acquire
    acquire_from [] w e h = rw (acquire, e) h
    acquire_from (c ∷ pool) w e h = rw (acquire, e) (borrow-keeps c w h)

    pub acquire-keeps : (w : World S) → P w.library → P (acquire mysql w).1.library
    acquire-keeps w h = acquire_from w.manager.connection_pool w refl h
