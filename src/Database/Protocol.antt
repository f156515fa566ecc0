-- ===== src/Database/Protocol.antt =====
-- The protocol of connections and statements, as assertions about a run and rules for its parts.
use bartimaeus_app.Base.{
  ℕ, ◌+◌, ◌≤◌, ◌≡◌, refl, Bool, true, false, List, Option, none, some, arith, length, if◌then◌else◌,
}
use bartimaeus_app.Base.Bytes.{Bytes}
use bartimaeus_app.DbManager.{Connection, pool_size, get_connection, release_connection}
use bartimaeus_app.Mysql.{Stmt, Value, Column, Mysql}
use bartimaeus_app.Database.{
  Stage, made, filled, executed, receiving, failed, parsed, placeholders, if_ok, prepares, binds,
  executes, looks_at, stores, stored_stage, unstored, stmt_store_result, receives, fetches, Phase,
  idle, undefined, held, prepared, World, Db, ◌>>=◌, reach, borrow, acquire, release, stmt_init,
  on_stmt, stmt_close, stmt_prepare, stmt_bind_param, stmt_execute, stmt_bind_result, finish,
  keep_prepared, prepare_on, prepare_statement, execute_if, bind_and_execute, stmt_fetch,
}

-- The connections that the phase says are borrowed.
abbrev pub borrowed : Phase → ℕ
borrowed idle = 0
borrowed undefined = 0
borrowed (held c) = 1
borrowed (prepared c st stage) = 1

-- A world in a phase, with all its connections accounted for.
pub record At {S : Type 0} (p : Phase) (w : World S) : Type 0 where
  pub phase : w.phase ≡ p
  pub conserved : w.manager.cur_conns ≡ length w.manager.connection_pool + borrowed p
  pub bounded : w.manager.cur_conns ≤ pool_size

-- From the phase `p` the action leads to the phase that goes with its result.
abbrev pub Moves : {S A : Type 0} → Phase → Db S A → (A → Phase) → Type 0
Moves {S} p m q = (w : World S) → At p w → At (q (m w).0) (m w).1

-- The rule for a sequence.
Moves-bind :
    {S A B : Type 0} (p : Phase) (m : Db S A) (f : A → Db S B) (q : A → Phase) (r : B → Phase)
    → Moves p m q
    → ((a : A) → Moves (q a) (f a) r)
    → Moves p (m >>= f) r
Moves-bind p m f q r hm hf w h = hf (m w).0 (m w).1 (hm w h)

abbrev pub after_acquire : Option Connection → Phase
after_acquire none = idle
after_acquire (some c) = held c

abbrev pub after_prepare : Connection → Bytes → Option Stmt → Phase
after_prepare c query none = idle
after_prepare c query (some st) = prepared c st (parsed (placeholders query))

abbrev pub after_init : Connection → Option Stmt → Phase
after_init c none = held c
after_init c (some st) = prepared c st made

-- The stage after a call that succeeds or fails.
abbrev pub ok_stage : Stage → Bool → Stage
ok_stage next ok = if ok then next else failed

if_ok-some : (next : Stage) (ok : Bool) → if_ok next ok ≡ some (ok_stage next ok)
if_ok-some next true = refl
if_ok-some next false = refl

module _ {S : Type 0} (mysql : Mysql S) where
  pub acquire-Moves : Moves idle (acquire mysql) after_acquire
  unfolding acquire borrow reach get_connection
  acquire-Moves w h = ground arith

  release-Moves : (c : Connection) → Moves (held c) (release mysql c) (λ x. idle)
  unfolding release release_connection
  release-Moves c w h = ground arith

  stmt_init-Moves : (c : Connection) → Moves (held c) (stmt_init mysql c) (after_init c)
  unfolding stmt_init
  stmt_init-Moves c w h = ground arith

  on_stmt-Moves :
      {A : Type 0} (c : Connection) (st : Stmt) (stage : Stage) (next : Stage → A → Option Stage)
      (target : A → Stage) (call : S → A × S)
      → ((a : A) → next stage a ≡ some (target a))
      → Moves (prepared c st stage) (on_stmt mysql st next call) (λ a. prepared c st (target a))
  unfolding on_stmt
  on_stmt-Moves c st stage next target call e w h = ground (arith, e (call w.library).0)

  stmt_prepare-Moves :
      (c : Connection) (st : Stmt) (query : Bytes)
      → Moves
          (prepared c st made)
          (stmt_prepare mysql st query)
          (λ ok. prepared c st (ok_stage (parsed (placeholders query)) ok))
  stmt_prepare-Moves c st query =
      on_stmt-Moves c st made (prepares query) (ok_stage (parsed (placeholders query)))
        (mysql.stmt_prepare st query) (if_ok-some (parsed (placeholders query)))

  stmt_bind_param-Moves :
      (c : Connection) (st : Stmt) (params : List Value) (n : ℕ)
      → length params ≡ n
      → Moves
          (prepared c st (parsed n))
          (stmt_bind_param mysql st params)
          (λ ok. prepared c st (ok_stage filled ok))
  stmt_bind_param-Moves c st params n e =
      on_stmt-Moves c st (parsed n) (binds params) (ok_stage filled)
        (mysql.stmt_bind_param st params) (λ ok. ground (arith, if_ok-some filled ok))

  stmt_execute-Moves :
      (c : Connection) (st : Stmt)
      → Moves
          (prepared c st filled)
          (stmt_execute mysql st)
          (λ ok. prepared c st (ok_stage executed ok))
  stmt_execute-Moves c st =
      on_stmt-Moves c st filled executes (ok_stage executed) (mysql.stmt_execute st)
        (if_ok-some executed)

  -- A text without parameters is executed at once.
  pub stmt_execute_now-Moves :
      (c : Connection) (st : Stmt) (n : ℕ)
      → n ≡ 0
      → Moves
          (prepared c st (parsed n))
          (stmt_execute mysql st)
          (λ ok. prepared c st (ok_stage executed ok))
  stmt_execute_now-Moves c st n e =
      on_stmt-Moves c st (parsed n) executes (ok_stage executed) (mysql.stmt_execute st)
        (λ ok. ground (arith, if_ok-some executed ok))

  pub stmt_bind_result-Moves :
      (c : Connection) (st : Stmt) (columns : List Column)
      → Moves
          (prepared c st executed)
          (stmt_bind_result mysql st columns)
          (λ ok. prepared c st (ok_stage receiving ok))
  stmt_bind_result-Moves c st columns =
      on_stmt-Moves c st executed receives (ok_stage receiving) (mysql.stmt_bind_result st columns)
        (if_ok-some receiving)

  -- Storing a result tells a failure from a success.
  pub store-Moves :
      (c : Connection) (st : Stmt) (stage : Stage)
      → ((ok : Bool) → stores stage ok ≡ some (stored_stage stage ok))
      → Moves
          (prepared c st stage)
          (stmt_store_result mysql st)
          (λ ok. prepared c st (stored_stage stage ok))
  store-Moves c st stage can =
      on_stmt-Moves c st stage stores (stored_stage stage) (mysql.stmt_store_result st) can

  pub look-Moves :
      {A : Type 0} (c : Connection) (st : Stmt) (call : S → A × S) (stored : Bool)
      → Moves
          (prepared c st (stored_stage executed stored))
          (on_stmt mysql st looks_at call)
          (λ a. prepared c st (stored_stage executed stored))
  look-Moves c st call true = on_stmt-Moves c st executed looks_at (λ a. executed) call (λ a. refl)
  look-Moves c st call false = on_stmt-Moves c st unstored looks_at (λ a. unstored) call (λ a. refl)

  pub fetch-Moves :
      (c : Connection) (st : Stmt) (stored : Bool)
      → Moves
          (prepared c st (stored_stage receiving stored))
          (stmt_fetch mysql st)
          (λ row. prepared c st (stored_stage receiving stored))
  fetch-Moves c st true =
      on_stmt-Moves c st receiving fetches (λ row. receiving) (mysql.stmt_fetch st) (λ row. refl)
  fetch-Moves c st false =
      on_stmt-Moves c st unstored fetches (λ row. unstored) (mysql.stmt_fetch st) (λ row. refl)

  pub stmt_close-Moves :
      (c : Connection) (st : Stmt) (stage : Stage)
      → Moves (prepared c st stage) (stmt_close mysql st) (λ x. held c)
  unfolding stmt_close
  stmt_close-Moves c st stage w h = ground arith

  pub finish-Moves :
      (c : Connection) (st : Stmt) (stage : Stage)
      → Moves (prepared c st stage) (finish mysql c st) (λ x. idle)
  unfolding finish
  finish-Moves c st stage =
      Moves-bind (prepared c st stage) (stmt_close mysql st) (λ x. release mysql c) (λ x. held c)
        (λ x. idle) (stmt_close-Moves c st stage) (λ x. release-Moves c)

  keep_prepared-Moves :
      (c : Connection) (st : Stmt) (query : Bytes) (ok : Bool)
      → Moves
          (prepared c st (ok_stage (parsed (placeholders query)) ok))
          (keep_prepared mysql c st ok)
          (after_prepare c query)
  unfolding keep_prepared
  keep_prepared-Moves c st query true w h = h
  keep_prepared-Moves c st query false w h = finish-Moves c st failed w h

  prepare_on-Moves :
      (c : Connection) (query : Bytes) (st : Option Stmt)
      → Moves (after_init c st) (prepare_on mysql c query st) (after_prepare c query)
  unfolding prepare_on
  prepare_on-Moves c query none w h = release-Moves c w h
  prepare_on-Moves c query (some st) w h =
      Moves-bind (prepared c st made) (stmt_prepare mysql st query) (keep_prepared mysql c st)
        (λ ok. prepared c st (ok_stage (parsed (placeholders query)) ok)) (after_prepare c query)
        (stmt_prepare-Moves c st query) (keep_prepared-Moves c st query) w h

  pub prepare_statement-Moves :
      (c : Connection) (query : Bytes)
      → Moves (held c) (prepare_statement mysql c query) (after_prepare c query)
  unfolding prepare_statement
  prepare_statement-Moves c query =
      Moves-bind (held c) (stmt_init mysql c) (prepare_on mysql c query) (after_init c)
        (after_prepare c query) (stmt_init-Moves c) (prepare_on-Moves c query)

  execute_if-Moves :
      (c : Connection) (st : Stmt) (ok : Bool)
      → Moves
          (prepared c st (ok_stage filled ok))
          (execute_if mysql st ok)
          (λ done. prepared c st (ok_stage executed done))
  unfolding execute_if
  execute_if-Moves c st true w h = stmt_execute-Moves c st w h
  execute_if-Moves c st false w h = h

  -- As many parameters as the text has question marks.
  pub bind_and_execute-Moves :
      (c : Connection) (st : Stmt) (params : List Value) (n : ℕ)
      → length params ≡ n
      → Moves
          (prepared c st (parsed n))
          (bind_and_execute mysql st params)
          (λ done. prepared c st (ok_stage executed done))
  unfolding bind_and_execute
  bind_and_execute-Moves c st params n e =
      Moves-bind (prepared c st (parsed n)) (stmt_bind_param mysql st params) (execute_if mysql st)
        (λ ok. prepared c st (ok_stage filled ok)) (λ done. prepared c st (ok_stage executed done))
        (stmt_bind_param-Moves c st params n e) (execute_if-Moves c st)
