-- ===== src/DbManager/Start.antt =====
-- The pool after its construction.
use bartimaeus_app.Base.{
  ℕ, zero, suc, ◌+◌, ◌≤◌, ◌<◌, ◌≡◌, refl, inl, inr, List, [], ◌∷◌, Option, none, some, arith, ltb,
  length, ◌&&◌, Bool-cases, Option-cases,
}
use bartimaeus_app.DbManager.{
  Connection, DbManager, pool_size, max_retries, initialize_loop, initialize_pool,
}

-- How many of the first attempts fail.
pub failures : ℕ → (ℕ → Option Connection) → ℕ
failures zero connect = 0
failures (suc n) connect =
    let before = failures n connect in elim (connect n) [ none ↦ before + 1 | some c ↦ before ]

succ : (n : ℕ) → n + 1 ≡ suc n
succ n = omega arith

failures-none :
    (n : ℕ) (connect : ℕ → Option Connection)
    → connect n ≡ none
    → failures (n + 1) connect ≡ failures n connect + 1
unfolding failures
failures-none n connect e = rw (succ n, failures, e) refl

failures-some :
    (n : ℕ) (connect : ℕ → Option Connection) (c : Connection)
    → connect n ≡ some c
    → failures (n + 1) connect ≡ failures n connect
unfolding failures
failures-some n connect c e = rw (succ n, failures, e) refl

-- The loop stops with a full pool, or after ten failed attempts.
pub record IsStarted (connect : ℕ → Option Connection) (pool : List Connection) : Type 0 where
  pub attempts : ℕ
  pub accounted : length pool + failures attempts connect ≡ attempts
  pub few_failures : failures attempts connect ≤ max_retries
  pub not_too_many : length pool ≤ pool_size
  pub enough : length pool < pool_size → failures attempts connect ≡ max_retries

initialize_loop-IsStarted :
    (fuel : ℕ) (connect : ℕ → Option Connection) (attempt : ℕ) (pool : List Connection)
    (retry_count : ℕ)
    → retry_count ≡ failures attempt connect
    → length pool + retry_count ≡ attempt
    → length pool ≤ pool_size
    → retry_count ≤ max_retries
    → pool_size + max_retries < fuel + attempt
    → (final : List Connection) × (initialize_loop fuel connect attempt pool retry_count
        ≡ some final)
      × IsStarted connect final
unfolding initialize_loop
initialize_loop-IsStarted zero connect attempt pool retry_count f a p r m = absurd (omega arith)
initialize_loop-IsStarted (suc fuel) connect attempt pool retry_count f a p r m =
    elim (Bool-cases (ltb (length pool) pool_size && ltb retry_count max_retries)) [
      | inr stop ↦ (
        pool,
        rw stop refl,
        record {
          attempts = attempt;
          accounted = omega arith;
          few_failures = omega arith;
          not_too_many = p;
          enough = λ h. ground arith;
        },
      )
      | inl more ↦ elim (Option-cases (connect attempt)) [
        | inl e ↦
            let (final, runs, started) =
              initialize_loop-IsStarted fuel connect (attempt + 1) pool (retry_count + 1)
                (omega (arith, failures-none attempt connect e)) (omega arith) p (ground arith)
                (omega arith) in
            (final, rw (more, e) runs, started)
        | inr (c, e) ↦
            let (final, runs, started) =
              initialize_loop-IsStarted fuel connect (attempt + 1) (c ∷ pool) retry_count
                (omega (arith, failures-some attempt connect c e)) (omega arith) (ground arith) r
                (omega arith) in
            (final, rw (more, e) runs, started)
      ]
    ]

-- Whatever the attempts to connect give, the construction ends: with five connections, or with
-- fewer after exactly ten failed attempts; cur_conns is the pool's size.
pub initialize_pool-IsStarted :
    (connect : ℕ → Option Connection)
    → (db : DbManager) × (initialize_pool connect ≡ some db)
      × (db.cur_conns ≡ length db.connection_pool)
      × IsStarted connect db.connection_pool
unfolding initialize_pool
initialize_pool-IsStarted connect =
    let (pool, runs, started) =
      initialize_loop-IsStarted (pool_size + max_retries + 1) connect 0 [] 0
        (unfold failures in refl) refl (omega arith) (omega arith) (omega arith) in
    (record { connection_pool = pool; cur_conns = length pool }, rw runs refl, refl, started)
