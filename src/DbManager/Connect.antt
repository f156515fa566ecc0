-- ===== src/DbManager/Connect.antt =====
-- What DbManager does besides its pool at work: its settings, a new connection, and the end.
use bartimaeus_app.Base.{
  ℕ, ◌+◌, ◌-◌, ◌%◌, ◌^◌, ◌≡◌, refl, Bool, true, false, List, [], ◌∷◌, ◌++◌, Option, none, some,
  arith, ◌==◌, if◌then◌else◌,
}
use bartimaeus_app.Base.Bytes.{Bytes, bytes}
use bartimaeus_app.Base.Int.{ℤ, pos, negsuc}
use bartimaeus_app.DbManager.{Connection, DbManager}

pub record Settings : Type 0 where
  pub host : Bytes
  pub user : Bytes
  pub password : Bytes
  pub dbname : Bytes
  pub port : ℕ

abbrev or_default : Option Bytes → Bytes → Bytes
or_default none text = text
or_default (some value) text = value

-- The conversion of an int to unsigned int
abbrev to_unsigned : ℤ → ℕ
to_unsigned (pos n) = n % 2 ^ 32
to_unsigned (negsuc n) = 2 ^ 32 - 1 - n % 2 ^ 32

abbrev port_of : (Bytes → ℤ) → Option Bytes → ℕ
port_of atoi none = 3306
port_of atoi (some env_port) = to_unsigned (atoi env_port)

-- The constructor's settings, over std::getenv and std::atoi.
unfoldable pub settings : (Bytes → Option Bytes) → (Bytes → ℤ) → Settings
settings getenv atoi = record {
  host = or_default (getenv (bytes "DB_HOST")) (bytes "127.0.0.1");
  user = or_default (getenv (bytes "DB_USER")) (bytes "root");
  password = or_default (getenv (bytes "DB_PASSWORD")) (bytes "rootpassword");
  dbname = or_default (getenv (bytes "DB_NAME")) (bytes "bartimaeus_db");
  port = port_of atoi (getenv (bytes "DB_PORT"));
}

-- What mysql_init gives and whether mysql_real_connect succeeds; the connection that is returned,
-- and those that were closed.
unfoldable pub create_connection : Option Connection → Bool → Option Connection × List Connection
create_connection none connected = (none, [])
create_connection (some conn) true = (some conn, [])
create_connection (some conn) false = (none, conn ∷ [])

-- The pool's vector from its front on, in the order in which it is gone through.
in_order : List Connection → List Connection
in_order [] = []
in_order (conn ∷ pool) = in_order pool ++ (conn ∷ [])

-- The connections that were closed, in order. The count stays.
unfoldable pub destroy_pool : DbManager → List Connection × DbManager
unfolding in_order
destroy_pool db = (in_order db.connection_pool, record db { connection_pool = [] })

pub count : Connection → List Connection → ℕ
count conn [] = 0
count conn (c ∷ cs) = (if c == conn then 1 else 0) + count conn cs

count-append :
    (conn : Connection) (cs ds : List Connection)
    → count conn (cs ++ ds) ≡ count conn cs + count conn ds
unfolding count
count-append conn [] ds = omega arith
count-append conn (c ∷ cs) ds = omega (arith, count-append conn cs ds)

count-in_order :
    (conn : Connection) (pool : List Connection) → count conn (in_order pool) ≡ count conn pool
unfolding count in_order
count-in_order conn [] = refl
count-in_order conn (c ∷ pool) =
    omega (arith, count-append conn (in_order pool) (c ∷ []), count-in_order conn pool)

-- At its end the pool closes every connection as often as it holds it, and holds none after that.
destroy_pool-count :
    (db : DbManager) (conn : Connection)
    → (count conn (destroy_pool db).0 ≡ count conn db.connection_pool)
      × ((destroy_pool db).1.connection_pool ≡ [])
unfolding destroy_pool
destroy_pool-count db conn = (count-in_order conn db.connection_pool, refl)
