-- ===== src/Mysql.antt =====
-- The MySQL client library as the services and the connection pool call it. The library and the
-- server behind it are a parameter: a state of any type, and a function for each call. `true` stands
-- for a call that returns 0.
use bartimaeus_app.Base.{ℕ, ◌<◌, ◌≡◌, Bool, List, Option, some}
use bartimaeus_app.Base.Bytes.{Bytes}
use bartimaeus_app.Base.Int.{ℤ}
use bartimaeus_app.DbManager.{Connection}

abbrev pub Stmt : Type 0
Stmt = ℕ

-- A parameter of a statement, or a column of a row.
pub data Value : Type 0 where
  text : Bytes → Value
  int : ℤ → Value

-- What a result column is bound to: an int, or an array of chars of some size.
pub data Column : Type 0 where
  int_column : Column
  text_column : ℕ → Column

pub record Mysql (S : Type 0) : Type 0 where
  pub ping : Connection → S → Bool × S
  -- mysql_init, mysql_options and mysql_real_connect
  pub connect : S → Option Connection × S
  pub close : Connection → S → S
  pub stmt_init : Connection → S → Option Stmt × S
  pub stmt_prepare : Stmt → Bytes → S → Bool × S
  pub stmt_bind_param : Stmt → List Value → S → Bool × S
  pub stmt_execute : Stmt → S → Bool × S
  pub stmt_store_result : Stmt → S → Bool × S
  pub stmt_num_rows : Stmt → S → ℕ
  pub stmt_affected_rows : Stmt → S → ℕ
  pub stmt_bind_result : Stmt → List Column → S → Bool × S
  -- a row in the bound columns; `none` for no more rows, for an error and for a truncated column
  pub stmt_fetch : Stmt → S → Option (List Value) × S
  pub stmt_close : Stmt → S → S
  -- how many rows of the statement's result are still to be fetched
  pub rows_left : Stmt → S → ℕ

-- Each row is fetched once.
pub record IsCursor {S : Type 0} (mysql : Mysql S) : Type 0 where
  pub fetch_takes :
      (stmt : Stmt) (s : S) (row : List Value)
      → (mysql.stmt_fetch stmt s).0 ≡ some row
      → mysql.rows_left stmt (mysql.stmt_fetch stmt s).1 < mysql.rows_left stmt s
