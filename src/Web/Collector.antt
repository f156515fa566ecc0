-- ===== src/Web/Collector.antt =====
-- The collector thread of main in src/main.cpp. `stop` is what each query of the stop token answers,
-- in order, and `clock` each reading of the clock.
pub mod Quiet
use bartimaeus_app.Base.{ℕ, zero, suc, ◌+◌, Bool, Option, none, some, if◌then◌else◌}
use bartimaeus_app.Limiter.{LoginLimiter, cleanup_expired_attempts}
use bartimaeus_app.Session.{SessionManager, cleanup_expired_sessions}

-- What the thread leaves, with how often it asked the token and read the clock.
pub record Collected : Type 0 where
  pub queries : ℕ
  pub readings : ℕ
  pub session_manager : SessionManager
  pub login_limiter : LoginLimiter

abbrev pub stopped_at : ℕ → ℕ → SessionManager → LoginLimiter → Option Collected
stopped_at q r session_manager login_limiter = some (record {
  queries = q;
  readings = r;
  session_manager = session_manager;
  login_limiter = login_limiter;
})

module _ (stop : ℕ → Bool) (clock : ℕ → ℕ) where
  -- The seconds of sleep that are left, each after a query; the number of the next query.
  unfoldable pub naps : ℕ → ℕ → ℕ
  naps zero q = q
  naps (suc n) q = let rest = naps n (q + 1) in if stop q then q + 1 else rest

  -- The loop of the thread, on fuel; `q` and `r` count the queries and the readings so far.
  unfoldable pub collect : ℕ → ℕ → ℕ → SessionManager → LoginLimiter → Option Collected
  collect zero q r session_manager login_limiter = none
  collect (suc fuel) q r session_manager login_limiter =
      let q1 = naps 10 (q + 1) in
      let rest =
        collect fuel (q1 + 1) (r + 2) (cleanup_expired_sessions session_manager (clock r))
          (cleanup_expired_attempts login_limiter (clock (r + 1))) in
      let stopped = λ (n : ℕ). stopped_at n r session_manager login_limiter in
      if stop q then stopped (q + 1) else if stop q1 then stopped (q1 + 1) else rest
