-- ===== src/Limiter/Cleanup.antt =====
-- The limiter drops stale entries, in the sweep and in getRemainingLockoutTime. Against a limiter
-- that keeps every entry until it is reset, no caller sees a difference.
use bartimaeus_app.Base.{
  ℕ, ◌-◌, ◌/◌, ◌≤◌, ◌≡◌, refl, sym, ◌∙◌, ap, true, ite, not, List, [], ◌∷◌, Option, none, some,
  arith, leb, if◌then◌else◌,
}
use bartimaeus_app.Base.Bytes.{Bytes, bytes_discrete}
use bartimaeus_app.Base.Map.{
  find, IsFunctional, find-erase, find-insert, find-retain, erase-IsFunctional, insert-IsFunctional,
  retain-IsFunctional,
}
use bartimaeus_app.Clock.{second}
use bartimaeus_app.Limiter.{
  LoginAttempt, LoginLimiter, is_stale, get_remaining_lockout_time, attempt_or_new, fail_attempt,
  record_failure, reset_attempts, cleanup_expired_attempts,
}
use bartimaeus_app.Limiter.Lockout.{get_remaining_lockout_time_lem}

-- What still counts of an entry: nothing when it is stale, and no lockout that is over.
abbrev pub settled : ℕ → LoginAttempt → LoginAttempt
settled t it = if leb it.lockout_until t then record it { lockout_until = 0 } else it

abbrev pub counting : ℕ → Option LoginAttempt → Option LoginAttempt
counting t none = none
counting t (some it) = if is_stale t it then none else some (settled t it)

counting-later :
    (t u : ℕ) (a b : Option LoginAttempt)
    → t ≤ u
    → counting t a ≡ counting t b
    → counting u a ≡ counting u b
counting-later t u none none h e = refl
counting-later t u none (some b) h e = ground arith
counting-later t u (some a) none h e = ground arith
counting-later t u (some a) (some b) h e = ground arith

-- A failure is counted in the same way for entries that count the same.
counting-fail :
    (t later : ℕ) (a b : Option LoginAttempt)
    → t ≤ later
    → counting t a ≡ counting t b
    → counting t (some (fail_attempt t later (attempt_or_new a)))
      ≡ counting t (some (fail_attempt t later (attempt_or_new b)))
unfolding fail_attempt
counting-fail t later none none h e = refl
counting-fail t later none (some b) h e = ground arith
counting-fail t later (some a) none h e = ground arith
counting-fail t later (some a) (some b) h e = ground arith

pub data Call : Type 0 where
  get_remaining reset : Bytes → Call
  fail : Bytes → ℕ → Call
  cleanup : Call

pub step : LoginLimiter → ℕ → Call → LoginLimiter
step l now (get_remaining username) = (get_remaining_lockout_time l username now).1
step l now (reset username) = reset_attempts l username
step l now (fail username later) = record_failure l username now later
step l now cleanup = cleanup_expired_attempts l now

pub run : LoginLimiter → List (ℕ × Call) → LoginLimiter
run l [] = l
run l ((now, c) ∷ cs) = run (step l now c) cs

-- The abstract table: every entry since the last reset.
abbrev pub Table : Type 0
Table = Bytes → Option LoginAttempt

abbrev pub table_step : Table → ℕ → Call → Table
table_step f now (reset username) = λ k. ite (bytes_discrete username k) none (f k)
table_step f now (fail username later) = λ k.
    ite (bytes_discrete username k) (some (fail_attempt now later (attempt_or_new (f username))))
      (f k)
table_step f now _ = f

pub table_run : Table → List (ℕ × Call) → Table
table_run f [] = f
table_run f ((now, c) ∷ cs) = table_run (table_step f now c) cs

-- The readings of the clock do not fall, within a call neither.
abbrev pub InOrder : ℕ → Call → Type 0
InOrder now (fail username later) = now ≤ later
InOrder now _ = Unit

abbrev pub Ascending : ℕ → List (ℕ × Call) → Type 0
Ascending now [] = Unit
Ascending now ((t, c) ∷ cs) = (now ≤ t) × InOrder t c × Ascending t cs

abbrev pub last_time : ℕ → List (ℕ × Call) → ℕ
last_time now [] = now
last_time now ((t, c) ∷ cs) = last_time t cs

pub record Refines (now : ℕ) (l : LoginLimiter) (f : Table) : Type 0 where
  pub functional : IsFunctional bytes_discrete l.attempts
  pub counts : (k : Bytes) → counting now (find bytes_discrete k l.attempts) ≡ counting now (f k)

counting-drop : (t : ℕ) (it : LoginAttempt) → is_stale t it ≡ true → counting t (some it) ≡ none
counting-drop t it h = rw h

get_remaining-Refines :
    (t : ℕ) (l : LoginLimiter) (f : Table) (username : Bytes)
    → Refines t l f
    → Refines t (get_remaining_lockout_time l username t).1 f
unfolding get_remaining_lockout_time
get_remaining-Refines t l f username r = record {
  functional =
      ground
        (arith, r.functional, erase-IsFunctional bytes_discrete username l.attempts r.functional);
  counts = λ k. ground (arith, r.counts k, find-erase bytes_discrete username k l.attempts);
}

cleanup-Refines :
    (t : ℕ) (l : LoginLimiter) (f : Table)
    → Refines t l f
    → Refines t (cleanup_expired_attempts l t) f
unfolding cleanup_expired_attempts
cleanup-Refines t l f r = record {
  functional =
      retain-IsFunctional bytes_discrete (λ it. not (is_stale t it)) l.attempts r.functional;
  counts = λ k. ground (
    arith,
    r.counts k,
    find-retain bytes_discrete (λ it. not (is_stale t it)) k l.attempts r.functional,
  );
}

reset-Refines :
    (t : ℕ) (l : LoginLimiter) (f : Table) (username : Bytes)
    → Refines t l f
    → Refines t (reset_attempts l username) (table_step f t (reset username))
unfolding reset_attempts
reset-Refines t l f username r = record {
  functional = erase-IsFunctional bytes_discrete username l.attempts r.functional;
  counts = λ k. ground (arith, r.counts k, find-erase bytes_discrete username k l.attempts);
}

counting-ite :
    {P : Type 0} (t : ℕ) (d : Dec P) (a b a' b' : Option LoginAttempt)
    → counting t a ≡ counting t a'
    → counting t b ≡ counting t b'
    → counting t (ite d a b) ≡ counting t (ite d a' b')
counting-ite t (yes p) a b a' b' h k = h
counting-ite t (no p) a b a' b' h k = k

fail-Refines :
    (t later : ℕ) (l : LoginLimiter) (f : Table) (username : Bytes)
    → t ≤ later
    → Refines t l f
    → Refines t (record_failure l username t later) (table_step f t (fail username later))
unfolding record_failure
fail-Refines t later l f username h r =
    let old = find bytes_discrete username l.attempts in
    let new = fail_attempt t later (attempt_or_new old) in
    record {
      functional = insert-IsFunctional bytes_discrete username new l.attempts r.functional;
      counts = λ k. rw (find-insert bytes_discrete username k new l.attempts) (
          counting-ite t (bytes_discrete username k) (some new) (find bytes_discrete k l.attempts)
            (some (fail_attempt t later (attempt_or_new (f username)))) (f k)
            (counting-fail t later old (f username) h (r.counts username)) (r.counts k));
    }

step-Refines :
    (t : ℕ) (l : LoginLimiter) (f : Table) (c : Call)
    → InOrder t c
    → Refines t l f
    → Refines t (step l t c) (table_step f t c)
unfolding step
step-Refines t l f (get_remaining username) o r = get_remaining-Refines t l f username r
step-Refines t l f (reset username) o r = reset-Refines t l f username r
step-Refines t l f (fail username later) o r = fail-Refines t later l f username o r
step-Refines t l f cleanup o r = cleanup-Refines t l f r

Refines-later : (t u : ℕ) (l : LoginLimiter) (f : Table) → t ≤ u → Refines t l f → Refines u l f
Refines-later t u l f h r = record {
  functional = r.functional;
  counts = λ k. counting-later t u (find bytes_discrete k l.attempts) (f k) h (r.counts k);
}

-- After any history with a clock that does not fall, the limiter's entries count exactly as those of
-- a table that drops none before it is reset.
pub run-Refines :
    (now : ℕ) (l : LoginLimiter) (f : Table) (cs : List (ℕ × Call))
    → Ascending now cs
    → Refines now l f
    → Refines (last_time now cs) (run l cs) (table_run f cs)
unfolding run table_run
run-Refines now l f [] a r = r
run-Refines now l f ((t, c) ∷ cs) (h, o, a) r =
    run-Refines t (step l t c) (table_step f t c) cs a
      (step-Refines t l f c o (Refines-later now t l f h r))

counting-remaining :
    (t : ℕ) (a b : Option LoginAttempt)
    → counting t a ≡ counting t b
    → (attempt_or_new a).lockout_until - t ≡ (attempt_or_new b).lockout_until - t
counting-remaining t none none h = refl
counting-remaining t none (some b) h = ground arith
counting-remaining t (some a) none h = ground arith
counting-remaining t (some a) (some b) h = ground arith

-- From a limiter that counts as an abstract table does, after any history of calls with a clock
-- that does not fall, the answered lockout is that of the table which drops no entry before it is
-- reset: dropping stale entries neither shortens nor lengthens a lockout.
pub run-remaining :
    (now : ℕ) (l : LoginLimiter) (f : Table) (cs : List (ℕ × Call)) (username : Bytes) (t : ℕ)
    → Ascending now cs
    → Refines now l f
    → last_time now cs ≤ t
    → (get_remaining_lockout_time (run l cs) username t).0
      ≡ ((attempt_or_new (table_run f cs username)).lockout_until - t) / second
run-remaining now l f cs username t a r h =
    let later =
      Refines-later (last_time now cs) t (run l cs) (table_run f cs) h
        (run-Refines now l f cs a r) in
    rw (get_remaining_lockout_time_lem (run l cs) username t) (
      ap (λ (n : ℕ). n / second)
        (counting-remaining t (find bytes_discrete username (run l cs).attempts)
          (table_run f cs username) (later.counts username)))

pub cleanup-remaining :
    (l : LoginLimiter) (now : ℕ) (username : Bytes) (t : ℕ)
    → IsFunctional bytes_discrete l.attempts
    → now ≤ t
    → (get_remaining_lockout_time (cleanup_expired_attempts l now) username t).0
      ≡ (get_remaining_lockout_time l username t).0
unfolding run step table_run
cleanup-remaining l now username t f h =
    let kept : Table = λ k. find bytes_discrete k l.attempts in
    let refines : Refines now l kept = record { functional = f; counts = λ k. refl } in
    run-remaining now l kept ((now, cleanup) ∷ []) username t (omega arith, tt, tt) refines h
    ∙ sym (run-remaining now l kept [] username t tt refines h)
