-- ===== src/DbManager.antt =====
-- src/services/db_manager.hpp. A connection is a number; the vector of the pool has its back first.
-- What mysql_ping and createConnection answer is an argument of each call. A call of getConnection
-- on an empty pool is one whose wait of three seconds is over.
pub mod Start
pub mod Threads
pub mod Healing
pub mod Connect
use bartimaeus_app.Base.{
  ℕ, zero, suc, ◌+◌, ◌-◌, ◌%◌, ◌^◌, Bool, not, ◌&&◌, List, [], ◌∷◌, Option, none, some, ltb,
  if◌then◌else◌, length,
}

abbrev pub Connection : Type 0
Connection = ℕ

-- The cur_conns of the source, a size_t, counts the open connections.
pub record DbManager : Type 0 where
  pub connection_pool : List Connection
  pub cur_conns : ℕ

abbrev pub pool_size : ℕ
pool_size = 5

abbrev pub max_retries : ℕ
max_retries = 10

-- cur_conns--
abbrev pub decrement : ℕ → ℕ
decrement n = (n + (2 ^ 64 - 1)) % 2 ^ 64

-- The connection that was taken, or the one that replaces it when it does not answer.
abbrev checked_connection :
    DbManager → Connection → Bool → Option Connection → Option Connection × DbManager
checked_connection db conn alive reconnected = if alive then (some conn, db) else elim reconnected [
  | none ↦ (none, record db { cur_conns = decrement db.cur_conns })
  | some fresh ↦ (some fresh, db)
]

unfoldable pub get_connection :
    DbManager → (Connection → Bool) → Option Connection → Option Connection × DbManager
get_connection db ping reconnected = elim db.connection_pool [
  | [] ↦ (none, db)
  | conn ∷ pool ↦
      checked_connection (record db { connection_pool = pool }) conn (ping conn) reconnected
]

unfoldable pub release_connection : DbManager → Option Connection → DbManager
release_connection db none = db
release_connection db (some conn) = record db { connection_pool = conn ∷ db.connection_pool }

-- The loop of initializePool; `connect` is what each attempt gives. `none` means that the fuel ran
-- out.
unfoldable pub initialize_loop :
    ℕ → (ℕ → Option Connection) → ℕ → List Connection → ℕ → Option (List Connection)
initialize_loop zero connect attempt pool retry_count = none
initialize_loop (suc fuel) connect attempt pool retry_count =
    let rest : Option (List Connection) = elim (connect attempt) [
      | some conn ↦ initialize_loop fuel connect (attempt + 1) (conn ∷ pool) retry_count
      | none ↦ initialize_loop fuel connect (attempt + 1) pool (retry_count + 1)
    ] in
    if ltb (length pool) pool_size && ltb retry_count max_retries then rest else some pool

abbrev pooled : Option (List Connection) → Option DbManager
pooled none = none
pooled (some pool) = some (record { connection_pool = pool; cur_conns = length pool })

unfoldable pub initialize_pool : (ℕ → Option Connection) → Option DbManager
unfolding initialize_loop
initialize_pool connect = pooled (initialize_loop (pool_size + max_retries + 1) connect 0 [] 0)

-- The two halves of a round of the healer, each under the lock: the test, and the new connection.
unfoldable pub is_full : DbManager → Bool
is_full db = not (ltb db.cur_conns pool_size)

unfoldable pub restore_connection : DbManager → Connection → DbManager
restore_connection db conn = record {
  connection_pool = conn ∷ db.connection_pool;
  cur_conns = db.cur_conns + 1;
}

-- The inner loop of the healer when no other thread runs, on fuel as above.
unfoldable pub heal : ℕ → (ℕ → Option Connection) → ℕ → DbManager → Option DbManager
unfolding is_full restore_connection
heal zero connect attempt db = none
heal (suc fuel) connect attempt db =
    let rest : Option DbManager = elim (connect attempt) [
      | none ↦ some db
      | some conn ↦ heal fuel connect (attempt + 1) (restore_connection db conn)
    ] in
    if is_full db then some db else rest
