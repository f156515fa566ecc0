-- ===== src/Database.antt =====
-- What the two database services share: a borrowed connection, a prepared statement, rows. The state
-- is what lies behind the client library, the pool, and the phase of the protocol, which is not in
-- the program: it tells what is open and how far its statement has come, and is `undefined` after a
-- call on something that is not open, a call out of its order, parameters that are not as many as
-- the text's question marks, and a read behind the end of an array.
pub mod Placeholders
pub mod Protocol
pub mod Rows
pub mod Cursor
pub mod Executed
use bartimaeus_app.Base.{
  ℕ, zero, suc, ◌+◌, ◌≡◌, Bool, true, false, List, [], ◌∷◌, Option, none, some, leb, ◌==◌,
  if◌then◌else◌, length,
}
use bartimaeus_app.Base.Bytes.{Bytes}
use bartimaeus_app.Base.Int.{ℤ, pos}
use bartimaeus_app.DbManager.{Connection, DbManager, get_connection, release_connection}
use bartimaeus_app.Mysql.{Stmt, Value, text, int, Column, Mysql}

-- How far a statement has come. After its preparation, its parameters, its execution or the binding of
-- its arrays failed it is only closed. When its result could not be stored, it is `unstored`: its rows
-- may still be counted and fetched, which two of the services do without a look at the failure.
pub data Stage : Type 0 where
  made filled executed receiving unstored failed : Stage
  parsed : ℕ → Stage

pub data Phase : Type 0 where
  idle undefined : Phase
  held : Connection → Phase
  prepared : Connection → Stmt → Stage → Phase

pub record World (S : Type 0) : Type 0 where
  pub library : S
  pub manager : DbManager
  pub phase : Phase

abbrev pub Db : Type 0 → Type 0 → Type 0
Db S A = World S → A × World S

infixl 5 ◌>>=◌ ◌>>◌
abbrev pub ◌>>=◌ : {S A B : Type 0} → Db S A → (A → Db S B) → Db S B
◌>>=◌ m f w = let (a, w') = m w in f a w'

abbrev pub ◌>>◌ : {S B : Type 0} → Db S (Unit {0}) → Db S B → Db S B
m >> k = m >>= λ _. k

abbrev pub pure : {S A : Type 0} → A → Db S A
pure a w = (a, w)

abbrev acquired : Option Connection → Phase → Phase
acquired none p = p
acquired (some c) idle = held c
acquired (some c) _ = undefined

abbrev opened : Connection → Option Stmt → Phase → Phase
opened c (some st) (held d) = if c == d then prepared d st made else undefined
opened c none (held d) = if c == d then held d else undefined
opened c _ _ = undefined

-- How many question marks the text of a statement has: as many parameters are read from the array
-- that mysql_stmt_bind_param gets.
unfoldable pub placeholders : Bytes → ℕ
placeholders [] = 0
placeholders (c ∷ s) = let rest = placeholders s in if c == b'?' then suc rest else rest

abbrev pub if_ok : Stage → Bool → Option Stage
if_ok next ok = if ok then some next else some failed

-- What each call needs, and where its result leads; `none` for a call out of order.
abbrev pub prepares : Bytes → Stage → Bool → Option Stage
prepares query made = if_ok (parsed (placeholders query))
prepares query _ = λ ok. none

abbrev pub binds : List Value → Stage → Bool → Option Stage
binds params (parsed n) = λ ok. if length params == n then if_ok filled ok else none
binds params _ = λ ok. none

-- A text without question marks needs no parameters.
abbrev pub executes : Stage → Bool → Option Stage
executes filled = if_ok executed
executes (parsed n) = λ ok. if n == 0 then if_ok executed ok else none
executes _ = λ ok. none

-- Storing a result.
abbrev pub stored_stage : Stage → Bool → Stage
stored_stage stage ok = if ok then stage else unstored

abbrev pub stores : Stage → Bool → Option Stage
stores executed = λ ok. some (stored_stage executed ok)
stores receiving = λ ok. some (stored_stage receiving ok)
stores _ = λ ok. none

-- Counting its rows, or those that were changed.
abbrev pub looks_at : {A : Type 0} → Stage → A → Option Stage
looks_at executed a = some executed
looks_at receiving a = some receiving
looks_at unstored a = some unstored
looks_at _ a = none

abbrev pub receives : Stage → Bool → Option Stage
receives executed = if_ok receiving
receives _ = λ ok. none

abbrev pub fetches : {A : Type 0} → Stage → A → Option Stage
fetches receiving a = some receiving
fetches unstored a = some unstored
fetches _ a = none

abbrev staged : Connection → Stmt → Option Stage → Phase
staged c st none = undefined
staged c st (some stage) = prepared c st stage

abbrev used : {A : Type 0} → Stmt → (Stage → A → Option Stage) → A → Phase → Phase
used st next a (prepared c open_st stage) =
    if st == open_st then staged c open_st (next stage a) else undefined
used st next a _ = undefined

abbrev closed : Stmt → Phase → Phase
closed st (prepared c open_st stage) = if st == open_st then held c else undefined
closed st _ = undefined

abbrev released : Connection → Phase → Phase
released c (held d) = if c == d then idle else undefined
released c _ = undefined

-- The text of an array of chars: what stands before the first 0.
unfoldable pub c_string : Bytes → Bytes
c_string [] = []
c_string (c ∷ s) = let rest = c_string s in if c == 0 then [] else c ∷ rest

-- The column `n` of a row; arrays and ints are zeroed before they are bound.
unfoldable pub text_at : ℕ → List Value → Bytes
text_at n [] = []
text_at zero (text s ∷ row) = s
text_at zero (int i ∷ row) = []
text_at (suc n) (v ∷ row) = text_at n row

unfoldable pub int_at : ℕ → List Value → ℤ
int_at n [] = pos 0
int_at zero (int i ∷ row) = i
int_at zero (text s ∷ row) = pos 0
int_at (suc n) (v ∷ row) = int_at n row

-- A std::string from an array of `size` chars. Without a 0 in it the read goes on behind it.
unfoldable pub read_text : {S : Type 0} → ℕ → Bytes → Db S Bytes
unfolding c_string
read_text size s w =
    (c_string s, record w { phase = if leb size (length (c_string s)) then undefined else w.phase })

module _ {S : Type 0} (mysql : Mysql S) where
  -- mysql_ping, and on failure mysql_close and createConnection
  reach : Connection → S → Bool × Option Connection × S
  reach conn s =
      let (alive, s1) = mysql.ping conn s in
      let (fresh, s2) = mysql.connect (mysql.close conn s1) in
      if alive then (true, none, s1) else (false, fresh, s2)

  borrow : Connection → Db S (Option Connection)
  unfolding reach
  borrow conn w =
      let (alive, fresh, s) = reach conn w.library in
      let (got, db) = get_connection w.manager (λ c. alive) fresh in
      (got, record { library = s; manager = db; phase = acquired got w.phase })

  -- DbManager::getInstance().getConnection()
  unfoldable pub acquire : Db S (Option Connection)
  unfolding borrow
  acquire w = elim w.manager.connection_pool [ [] ↦ (none, w) | conn ∷ pool ↦ borrow conn w ]

  -- DbManager::getInstance().releaseConnection(conn)
  unfoldable pub release : Connection → Db S (Unit {0})
  release conn w = (
    tt,
    record w { manager = release_connection w.manager (some conn); phase = released conn w.phase },
  )

  unfoldable pub stmt_init : Connection → Db S (Option Stmt)
  stmt_init conn w =
      let (st, s) = mysql.stmt_init conn w.library in
      (st, record w { library = s; phase = opened conn st w.phase })

  -- A call on a statement.
  unfoldable pub on_stmt : {A : Type 0} → Stmt → (Stage → A → Option Stage) → (S → A × S) → Db S A
  on_stmt st next call w =
      let (a, s) = call w.library in (a, record w { library = s; phase = used st next a w.phase })

  unfoldable pub stmt_close : Stmt → Db S (Unit {0})
  stmt_close st w =
      (tt, record w { library = mysql.stmt_close st w.library; phase = closed st w.phase })

  abbrev pub stmt_prepare : Stmt → Bytes → Db S Bool
  stmt_prepare st query = on_stmt st (prepares query) (mysql.stmt_prepare st query)

  abbrev pub stmt_bind_param : Stmt → List Value → Db S Bool
  stmt_bind_param st params = on_stmt st (binds params) (mysql.stmt_bind_param st params)

  abbrev pub stmt_execute : Stmt → Db S Bool
  stmt_execute st = on_stmt st executes (mysql.stmt_execute st)

  abbrev pub stmt_store_result : Stmt → Db S Bool
  stmt_store_result st = on_stmt st stores (mysql.stmt_store_result st)

  abbrev pub stmt_num_rows : Stmt → Db S ℕ
  stmt_num_rows st = on_stmt st looks_at (λ s. (mysql.stmt_num_rows st s, s))

  abbrev pub stmt_affected_rows : Stmt → Db S ℕ
  stmt_affected_rows st = on_stmt st looks_at (λ s. (mysql.stmt_affected_rows st s, s))

  abbrev pub stmt_bind_result : Stmt → List Column → Db S Bool
  stmt_bind_result st columns = on_stmt st receives (mysql.stmt_bind_result st columns)

  abbrev pub stmt_fetch : Stmt → Db S (Option (List Value))
  stmt_fetch st = on_stmt st fetches (mysql.stmt_fetch st)

  -- What every path with a statement ends with.
  unfoldable pub finish : Connection → Stmt → Db S (Unit {0})
  unfolding stmt_close release
  finish conn st = do stmt_close st; release conn

  keep_prepared : Connection → Stmt → Bool → Db S (Option Stmt)
  unfolding finish
  keep_prepared conn st true = pure (some st)
  keep_prepared conn st false = do finish conn st; pure none

  prepare_on : Connection → Bytes → Option Stmt → Db S (Option Stmt)
  unfolding keep_prepared on_stmt
  prepare_on conn query none = do release conn; pure none
  prepare_on conn query (some st) = do
    prepared_now ← stmt_prepare st query
    keep_prepared conn st prepared_now

  -- mysql_stmt_init and mysql_stmt_prepare; on failure both are undone.
  unfoldable pub prepare_statement : Connection → Bytes → Db S (Option Stmt)
  unfolding prepare_on stmt_init
  prepare_statement conn query = do st ← stmt_init conn; prepare_on conn query st

  execute_if : Stmt → Bool → Db S Bool
  unfolding on_stmt
  execute_if st true = stmt_execute st
  execute_if st false = pure false

  -- bind_param and execute, the second only after the first
  unfoldable pub bind_and_execute : Stmt → List Value → Db S Bool
  unfolding execute_if on_stmt
  bind_and_execute st params = do bound ← stmt_bind_param st params; execute_if st bound

  next_row :
      {A : Type 0} → Db S (List A) → (List Value → Db S A) → Option (List Value) → Db S (List A)
  next_row loop read none = pure []
  next_row loop read (some columns) = do a ← read columns; rest ← loop; pure (a ∷ rest)

  -- Fetch until there is no row; each row is turned into a value by `read`.
  pub fetch_loop : {A : Type 0} → ℕ → Stmt → (List Value → Db S A) → Db S (List A)
  unfolding next_row
  fetch_loop zero st read = pure []
  fetch_loop (suc fuel) st read = stmt_fetch st >>= next_row (fetch_loop fuel st read) read

  -- The loop, with fuel for all rows that are left.
  unfoldable pub fetch_all : {A : Type 0} → Stmt → (List Value → Db S A) → Db S (List A)
  unfolding fetch_loop
  fetch_all st read w = fetch_loop (mysql.rows_left st w.library + 1) st read w
