-- ===== src/DbManager/Threads.antt =====
-- The pool under any interleaving of the request threads with the healer. A step is one critical
-- section; between the healer's test and its new connection other threads go on.
use bartimaeus_app.Base.{
  ℕ, ◌+◌, ◌≤◌, ◌<◌, ◌≡◌, Bool, false, List, ◌∷◌, ◌++◌, Option, none, some, arith, length,
  length-append, ap,
}
use bartimaeus_app.DbManager.{
  Connection, DbManager, pool_size, get_connection, release_connection, is_full, restore_connection,
}

-- Where the healer is: asleep or before its test, between the test and createConnection's answer,
-- or holding a new connection.
pub data Healer : Type 0 where
  resting testing : Healer
  holding : Connection → Healer

pub record System : Type 0 where
  pub db : DbManager
  -- taken with getConnection and not given back
  pub borrowed : List Connection
  pub healer : Healer

pub data Step (s : System) : System → Type 0 where
  borrow :
      (ping : Connection → Bool) (reconnected : Option Connection) (conn : Connection)
      (db : DbManager)
      → get_connection s.db ping reconnected ≡ (some conn, db)
      → Step s (record s { db = db; borrowed = conn ∷ s.borrowed })
  starve :
      (ping : Connection → Bool) (reconnected : Option Connection) (db : DbManager)
      → get_connection s.db ping reconnected ≡ (none, db)
      → Step s (record s { db = db })
  give_back :
      (before after : List Connection) (conn : Connection)
      → s.borrowed ≡ before ++ conn ∷ after
      → Step s (record s { db = release_connection s.db (some conn); borrowed = before ++ after })
  test : s.healer ≡ resting → is_full s.db ≡ false → Step s (record s { healer = testing })
  fail_to_connect : s.healer ≡ testing → Step s (record s { healer = resting })
  connect : (conn : Connection) → s.healer ≡ testing → Step s (record s { healer = holding conn })
  restore :
      (conn : Connection)
      → s.healer ≡ holding conn
      → Step s (record s { db = restore_connection s.db conn; healer = resting })

pub data Reachable (s : System) : System → Type 0 where
  start : Reachable s s
  next : (u v : System) → Reachable s u → Step u v → Reachable s v

-- A place is left for the connection that the healer is about to add.
abbrev pub HasRoom : Healer → ℕ → Type 0
HasRoom resting n = n ≤ pool_size
HasRoom testing n = n < pool_size
HasRoom (holding conn) n = n < pool_size

pub record IsAccounted (s : System) : Type 0 where
  pub conserved : s.db.cur_conns ≡ length s.db.connection_pool + length s.borrowed
  pub bounded : HasRoom s.healer s.db.cur_conns

HasRoom-le : (h : Healer) (m n : ℕ) → m ≤ n → HasRoom h n → HasRoom h m
HasRoom-le resting m n l r = omega arith
HasRoom-le testing m n l r = omega arith
HasRoom-le (holding conn) m n l r = omega arith

HasRoom-bound : (h : Healer) (n : ℕ) → HasRoom h n → n ≤ pool_size
HasRoom-bound resting n r = r
HasRoom-bound testing n r = omega arith
HasRoom-bound (holding conn) n r = omega arith

-- A connection that is taken leaves the pool and the count stays; when none is had the pool was
-- empty, or its connection is lost and no longer counted.
get_connection-some :
    (db db' : DbManager) (ping : Connection → Bool) (reconnected : Option Connection)
    (conn : Connection)
    → get_connection db ping reconnected ≡ (some conn, db')
    → (db'.cur_conns ≡ db.cur_conns) × (length db.connection_pool ≡ length db'.connection_pool + 1)
unfolding get_connection
get_connection-some db db' ping reconnected conn h = ground arith

get_connection-none :
    (db db' : DbManager) (ping : Connection → Bool) (reconnected : Option Connection)
    → get_connection db ping reconnected ≡ (none, db')
    → length db.connection_pool ≤ db.cur_conns
    → db.cur_conns ≤ pool_size
    → (db'.cur_conns + length db.connection_pool ≡ db.cur_conns + length db'.connection_pool)
      × (db'.cur_conns ≤ db.cur_conns)
unfolding get_connection
get_connection-none db db' ping reconnected h l r = ground arith

get_connection-IsAccounted :
    (s : System) (db : DbManager) (ping : Connection → Bool) (reconnected : Option Connection)
    → IsAccounted s
    → get_connection s.db ping reconnected ≡ (none, db)
    → IsAccounted (record s { db = db })
get_connection-IsAccounted s db ping reconnected a h =
    let bound = HasRoom-bound s.healer s.db.cur_conns a.bounded in
    let (lost, le) =
      get_connection-none s.db db ping reconnected h (omega (arith, a.conserved)) bound in
    record {
      conserved = omega (arith, a.conserved);
      bounded = HasRoom-le s.healer db.cur_conns s.db.cur_conns le a.bounded;
    }

length-given_back :
    (before after : List Connection) (conn : Connection)
    → length (before ++ conn ∷ after) ≡ length (before ++ after) + 1
length-given_back before after conn =
    omega (arith, length-append before (conn ∷ after), length-append before after)

Step-IsAccounted : (s t : System) → Step s t → IsAccounted s → IsAccounted t
unfolding release_connection is_full restore_connection
Step-IsAccounted s t (borrow ping reconnected conn db h) a =
    let (same, length_one) = get_connection-some s.db db ping reconnected conn h in
    record { conserved = omega (arith, a.conserved); bounded = rw same a.bounded }
Step-IsAccounted s t (starve ping reconnected db h) a =
    get_connection-IsAccounted s db ping reconnected a h
Step-IsAccounted s t (give_back before after conn h) a = record {
  conserved = omega (
    arith,
    a.conserved,
    length-given_back before after conn,
    ap (λ (l : List Connection). length l) h,
  );
  bounded = a.bounded;
}
Step-IsAccounted s t (test resting_now h) a = record {
  conserved = a.conserved;
  bounded = ground arith;
}
Step-IsAccounted s t (fail_to_connect testing_now) a = record {
  conserved = a.conserved;
  bounded = HasRoom-bound s.healer s.db.cur_conns a.bounded;
}
Step-IsAccounted s t (connect conn testing_now) a = record {
  conserved = a.conserved;
  bounded = rw testing_now at a.bounded;
}
Step-IsAccounted s t (restore conn holding_now) a =
    let room : HasRoom (holding conn) s.db.cur_conns = rw holding_now at a.bounded in
    record { conserved = omega (arith, a.conserved); bounded = omega arith }

-- From a state where it holds, in every interleaving of the threads with the healer, cur_conns is
-- the number of connections in the pool and in the hands of the threads, and is never more than
-- five; while the healer makes a connection there is room for it.
pub Reachable-IsAccounted : (s t : System) → Reachable s t → IsAccounted s → IsAccounted t
Reachable-IsAccounted s t start a = a
Reachable-IsAccounted s t (next u v r h) a = Step-IsAccounted u v h (Reachable-IsAccounted s u r a)
