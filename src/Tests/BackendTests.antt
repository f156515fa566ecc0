-- ===== src/Tests/BackendTests.antt =====
-- The theorems on the connection pool and on the reverse proxy, at short runs.
use bartimaeus_app.Base.{
  ℕ, ◌+◌, ◌≡◌, refl, true, [], ◌∷◌, Option, none, some, arith, length, ltb, if◌then◌else◌,
}
use bartimaeus_app.DbManager.{
  Connection, DbManager, initialize_pool, get_connection, release_connection,
}
use bartimaeus_app.DbManager.Start.{IsStarted, initialize_pool-IsStarted}
use bartimaeus_app.DbManager.Threads.{
  resting, System, borrow, give_back, Reachable, start, next, IsAccounted, Reachable-IsAccounted,
}
use bartimaeus_app.ReverseProxy.Server.{Host, serve_clients}
use bartimaeus_app.ReverseProxy.Accepted.{worker_for, serve_clients-Accepts}

-- The database is reached from the fourth attempt on.
abbrev late : ℕ → Option Connection
late n = if ltb n 3 then none else some n

initialize_pool-IsStarted_example :
    (db : DbManager) × (initialize_pool late ≡ some db)
    × (db.cur_conns ≡ length db.connection_pool)
    × IsStarted late db.connection_pool
initialize_pool-IsStarted_example = initialize_pool-IsStarted late

abbrev two_left : DbManager
two_left = record { connection_pool = 8 ∷ 9 ∷ []; cur_conns = 2 }

abbrev idle : System
idle = record { db = two_left; borrowed = []; healer = resting }

abbrev one_out : System
one_out = record {
  db = record { connection_pool = 9 ∷ []; cur_conns = 2 };
  borrowed = 8 ∷ [];
  healer = resting;
}

answered : get_connection two_left (λ c. true) none ≡ (some 8, one_out.db)
unfolding get_connection
answered = refl

abbrev path :
    Reachable idle (record one_out { db = release_connection one_out.db (some 8); borrowed = [] })
path =
    next one_out _ (next idle one_out start (borrow (λ c. true) none 8 one_out.db answered))
      (give_back [] [] 8 refl)

idle-IsAccounted : IsAccounted idle
idle-IsAccounted = record { conserved = refl; bounded = omega arith }

Reachable-IsAccounted_example :
    IsAccounted (record one_out { db = release_connection one_out.db (some 8); borrowed = [] })
Reachable-IsAccounted_example =
    Reachable-IsAccounted idle
      (record one_out { db = release_connection one_out.db (some 8); borrowed = [] }) path
      idle-IsAccounted

-- Two clients, then an error.
abbrev host : Host
host = record {
  backend_host = none;
  server_sock = some 3;
  bound = true;
  listening = true;
  accept = λ n. if ltb n 2 then some (n + 20) else none;
}

serve_clients-Accepts_example :
    serve_clients 3 host
    ≡ some (record {
      status = 0;
      workers = worker_for host 20 ∷ worker_for host 21 ∷ [];
      closed = 3 ∷ [];
    })
serve_clients-Accepts_example =
    serve_clients-Accepts host 3 (20 ∷ 21 ∷ []) refl refl refl (refl, (refl, refl))
