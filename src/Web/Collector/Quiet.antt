-- ===== src/Web/Collector/Quiet.antt =====
-- The collector thread ends soon after a stop request, and no one sees what it removed.
use bartimaeus_app.Base.{
  ℕ, zero, suc, ◌+◌, ◌≤◌, ◌<◌, ◌≡◌, refl, ◌∙◌, Bool, true, false, Option, none, some, arith,
  if◌then◌else◌, Bool-cases, inl, inr, leb, leb→le, ltb, not,
}
use bartimaeus_app.Base.Bytes.{Bytes, bytes_discrete}
use bartimaeus_app.Base.Map.{IsFunctional, retain-IsFunctional}
use bartimaeus_app.Limiter.{
  LoginLimiter, is_stale, cleanup_expired_attempts, get_remaining_lockout_time,
}
use bartimaeus_app.Limiter.Cleanup.{cleanup-remaining}
use bartimaeus_app.Session.{SessionManager, cleanup_expired_sessions}
use bartimaeus_app.Session.View.{active, cleanup_expired_sessions-SameView}
use bartimaeus_app.Web.Collector.{Collected, naps, collect}

-- At the time `t` both answer as the other two do: which session an id stands for, and how long a
-- user is locked out.
abbrev pub SameAnswers : ℕ → SessionManager → LoginLimiter → SessionManager → LoginLimiter → Type 0
SameAnswers t sm ll sm' ll' =
    ((session_id : Bytes) → active sm' session_id t ≡ active sm session_id t)
    × ((username : Bytes)
        → (get_remaining_lockout_time ll' username t).0
          ≡ (get_remaining_lockout_time ll username t).0)

module _ (stop : ℕ → Bool) (clock : ℕ → ℕ) where
  -- A request to stop is never taken back.
  abbrev pub IsStopToken : Type 0
  IsStopToken = (i j : ℕ) → i ≤ j → stop i ≡ true → stop j ≡ true

  before_stop : (n q : ℕ) → IsStopToken → stop n ≡ true → stop q ≡ false → q < n
  before_stop n q token s e = elim (Bool-cases (leb n q)) [
    | inl le ↦ let later = token n q (leb→le n q le) s in absurd (ground arith)
    | inr gt ↦ ground arith
  ]

  before : (n q : ℕ) → q < n → q + 1 ≤ n
  before n q h = omega arith

  naps-bounds :
      (n left q : ℕ)
      → IsStopToken
      → stop n ≡ true
      → q ≤ n
      → (q ≤ naps stop clock left q) × (naps stop clock left q ≤ n + 1)
  unfolding naps
  naps-bounds n zero q token s h = (omega arith, omega arith)
  naps-bounds n (suc left) q token s h = elim (Bool-cases (stop q)) [
    | inl e ↦ rw (naps, e) (omega arith, omega arith)
    | inr e ↦
        let (low, high) =
          naps-bounds n left (q + 1) token s (before n q (before_stop n q token s e)) in
        rw (naps, e) (omega arith, high)
  ]

  abbrev EndsBy : ℕ → Option Collected → Type 0
  EndsBy n result = (c : Collected) × (result ≡ some c) × (c.queries ≤ n + 2)

  if-EndsBy :
      (n : ℕ) (b : Bool) (x y : Option Collected)
      → (b ≡ true → EndsBy n x)
      → (b ≡ false → EndsBy n y)
      → EndsBy n (if b then x else y)
  if-EndsBy n true x y hx hy = hx refl
  if-EndsBy n false x y hx hy = hy refl

  -- Once the n-th query of the token is answered by a stop request, the thread ends, with at most
  -- one query after that one; fuel for n + 1 rounds is enough.
  pub collect-ends :
      (n fuel q r : ℕ) (sm : SessionManager) (ll : LoginLimiter)
      → IsStopToken
      → stop n ≡ true
      → q ≤ n
      → n < fuel + q
      → (c : Collected) × (collect stop clock fuel q r sm ll ≡ some c) × (c.queries ≤ n + 2)
  unfolding collect
  collect-ends n zero q r sm ll token s h m = absurd (omega arith)
  collect-ends n (suc fuel) q r sm ll token s h m =
      if-EndsBy n (stop q) _ _ (λ e. (_, refl, omega arith))
        (λ e.
          let q1 = naps stop clock 10 (q + 1) in
          let below = before_stop n q token s e in
          let (low, high) = naps-bounds n 10 (q + 1) token s (omega arith) in
          if-EndsBy n (stop q1) _ _ (λ e1. (_, refl, omega arith))
            (λ e1.
              let below1 = before_stop n q1 token s e1 in
              collect-ends n fuel (q1 + 1) (r + 2) (cleanup_expired_sessions sm (clock r))
                (cleanup_expired_attempts ll (clock (r + 1))) token s (omega arith) (omega arith)))

  -- The clock does not fall.
  abbrev pub IsClock : Type 0
  IsClock = (i j : ℕ) → i ≤ j → clock i ≤ clock j

  -- No one who asks from now on sees a difference.
  abbrev pub IsQuiet : ℕ → SessionManager → LoginLimiter → Option Collected → Type 0
  IsQuiet r sm ll none = Unit
  IsQuiet r sm ll (some c) =
      (r ≤ c.readings)
      × ((t : ℕ) → clock c.readings ≤ t → SameAnswers t sm ll c.session_manager c.login_limiter)

  IsQuiet-cleanup :
      (r : ℕ) (sm : SessionManager) (ll : LoginLimiter) (result : Option Collected)
      → IsClock
      → IsFunctional bytes_discrete sm.sessions
      → IsFunctional bytes_discrete ll.attempts
      → IsQuiet
          (r + 2)
          (cleanup_expired_sessions sm (clock r))
          (cleanup_expired_attempts ll (clock (r + 1)))
          result
      → IsQuiet r sm ll result
  IsQuiet-cleanup r sm ll none up fs fl h = tt
  IsQuiet-cleanup r sm ll (some c) up fs fl (more, same) = (
    omega arith,
    λ t h.
        let first = up r c.readings (omega arith) in
        let second = up (r + 1) c.readings (omega arith) in
        let (sessions, lockouts) = same t h in
        (
          λ session_id.
              sessions session_id
              ∙ cleanup_expired_sessions-SameView sm (clock r) fs session_id t (omega arith),
          λ username.
              lockouts username ∙ cleanup-remaining ll (clock (r + 1)) username t fl (omega arith),
        ),
  )

  if-IsQuiet :
      (r : ℕ) (sm : SessionManager) (ll : LoginLimiter) (b : Bool) (x y : Option Collected)
      → IsQuiet r sm ll x
      → IsQuiet r sm ll y
      → IsQuiet r sm ll (if b then x else y)
  if-IsQuiet r sm ll true x y hx hy = hx
  if-IsQuiet r sm ll false x y hx hy = hy

  -- When the thread ends, with a clock that does not fall and tables that have each key once, every
  -- session id stands for what it stood for before the thread ran, and every user is locked out for
  -- as long as before, from the thread's last reading of the clock on.
  pub collect-IsQuiet :
      (fuel q r : ℕ) (sm : SessionManager) (ll : LoginLimiter)
      → IsClock
      → IsFunctional bytes_discrete sm.sessions
      → IsFunctional bytes_discrete ll.attempts
      → IsQuiet r sm ll (collect stop clock fuel q r sm ll)
  unfolding collect
  collect-IsQuiet zero q r sm ll up fs fl = tt
  collect-IsQuiet (suc fuel) q r sm ll up fs fl =
      if-IsQuiet r sm ll (stop q) _ _ (omega arith, λ t h. (λ k. refl, λ k. refl))
        (if-IsQuiet r sm ll (stop (naps stop clock 10 (q + 1))) _ _
          (omega arith, λ t h. (λ k. refl, λ k. refl))
          (IsQuiet-cleanup r sm ll _ up fs fl (
            collect-IsQuiet fuel _ (r + 2) (cleanup_expired_sessions sm (clock r))
              (cleanup_expired_attempts ll (clock (r + 1))) up
              (unfold cleanup_expired_sessions in
                retain-IsFunctional bytes_discrete (λ it. not (ltb it.expires_at (clock r)))
                  sm.sessions fs)
              (unfold cleanup_expired_attempts in
                retain-IsFunctional bytes_discrete (λ it. not (is_stale (clock (r + 1)) it))
                  ll.attempts fl))))
