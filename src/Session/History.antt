-- ===== src/Session/History.antt =====
-- The store after any history of calls, against a table that forgets nothing but what is destroyed.
use bartimaeus_app.Base.{ℕ, ◌≤◌, ◌≡◌, ◌∙◌, ite, List, [], ◌∷◌, Option, none, some, arith, ltb, not}
use bartimaeus_app.Base.Bytes.{Bytes, bytes_discrete}
use bartimaeus_app.Base.Map.{
  IsFunctional, find-insert, erase-IsFunctional, insert-IsFunctional, retain-IsFunctional,
}
use bartimaeus_app.Hex.{hex}
use bartimaeus_app.Session.{
  Session, SessionManager, new_session, create_session, validate_session, get_csrf_token,
  validate_csrf_token, destroy_session, cleanup_expired_sessions,
}
use bartimaeus_app.Session.View.{
  live, active, SameView, validate_session_lem, get_csrf_token_lem, validate_csrf_token-SameView,
  active-destroy_session, cleanup_expired_sessions-SameView,
}

-- A call of each method, with what the random generator answers.
pub data Call : Type 0 where
  create : Bytes → Option (List ℕ) → Option (List ℕ) → Call
  validate get_csrf destroy : Bytes → Call
  check_csrf : Bytes → Bytes → Call
  cleanup : Call

-- A call that throws leaves the store as it was.
abbrev pub after : SessionManager → Option (Bytes × SessionManager) → SessionManager
after s none = s
after s (some (session_id, s')) = s'

pub step : SessionManager → ℕ → Call → SessionManager
step s now (create username id_buffer csrf_buffer) =
    after s (create_session s username id_buffer csrf_buffer now)
step s now (validate session_id) = (validate_session s session_id now).1
step s now (get_csrf session_id) = (get_csrf_token s session_id now).1
step s now (destroy session_id) = destroy_session s session_id
step s now (check_csrf session_id token) = (validate_csrf_token s session_id token now).1
step s now cleanup = cleanup_expired_sessions s now

pub run : SessionManager → List (ℕ × Call) → SessionManager
run s [] = s
run s ((now, c) ∷ cs) = run (step s now c) cs

-- The abstract table: every session that was created and not destroyed.
abbrev pub Table : Type 0
Table = Bytes → Option Session

abbrev pub table_step : Table → ℕ → Call → Table
table_step f now (create username (some id_buffer) (some csrf_buffer)) = λ k.
    ite (bytes_discrete (hex id_buffer) k) (some (new_session username (hex csrf_buffer) now)) (f k)
table_step f now (destroy session_id) = λ k. ite (bytes_discrete session_id k) none (f k)
table_step f now _ = f

pub table_run : Table → List (ℕ × Call) → Table
table_run f [] = f
table_run f ((now, c) ∷ cs) = table_run (table_step f now c) cs

-- The readings of the clock do not fall.
abbrev pub Ascending : ℕ → List (ℕ × Call) → Type 0
Ascending now [] = Unit
Ascending now ((t, c) ∷ cs) = (now ≤ t) × Ascending t cs

abbrev pub last_time : ℕ → List (ℕ × Call) → ℕ
last_time now [] = now
last_time now ((t, c) ∷ cs) = last_time t cs

pub record Refines (now : ℕ) (s : SessionManager) (f : Table) : Type 0 where
  pub functional : IsFunctional bytes_discrete s.sessions
  pub shows : (k : Bytes) (t : ℕ) → now ≤ t → active s k t ≡ live t (f k)

SameView-Refines :
    (t : ℕ) (s s' : SessionManager) (f : Table)
    → IsFunctional bytes_discrete s'.sessions
    → SameView t s s'
    → Refines t s f
    → Refines t s' f
SameView-Refines t s s' f g v r = record {
  functional = g;
  shows = λ k u h. v k u h ∙ r.shows k u h;
}

validate_session-IsFunctional :
    (s : SessionManager) (session_id : Bytes) (now : ℕ)
    → IsFunctional bytes_discrete s.sessions
    → IsFunctional bytes_discrete (validate_session s session_id now).1.sessions
unfolding validate_session
validate_session-IsFunctional s session_id now h =
    ground (arith, erase-IsFunctional bytes_discrete session_id s.sessions h)

get_csrf_token-IsFunctional :
    (s : SessionManager) (session_id : Bytes) (now : ℕ)
    → IsFunctional bytes_discrete s.sessions
    → IsFunctional bytes_discrete (get_csrf_token s session_id now).1.sessions
unfolding get_csrf_token
get_csrf_token-IsFunctional s session_id now h =
    ground (arith, erase-IsFunctional bytes_discrete session_id s.sessions h)

validate_csrf_token-IsFunctional :
    (s : SessionManager) (session_id token : Bytes) (now : ℕ)
    → IsFunctional bytes_discrete s.sessions
    → IsFunctional bytes_discrete (validate_csrf_token s session_id token now).1.sessions
unfolding validate_csrf_token
validate_csrf_token-IsFunctional s session_id [] now h = h
validate_csrf_token-IsFunctional s session_id (c ∷ token) now h =
    get_csrf_token-IsFunctional s session_id now h

create-Refines :
    (t : ℕ) (s : SessionManager) (f : Table) (username : Bytes) (i j : List ℕ)
    → Refines t s f
    → Refines t
        (step s t (create username (some i) (some j)))
        (table_step f t (create username (some i) (some j)))
unfolding step create_session
create-Refines t s f username i j r = record {
  functional =
      insert-IsFunctional bytes_discrete (hex i) (new_session username (hex j) t) s.sessions
        r.functional;
  shows = λ k u h. ground (
    arith,
    r.shows k u h,
    find-insert bytes_discrete (hex i) k (new_session username (hex j) t) s.sessions,
  );
}

destroy-Refines :
    (t : ℕ) (s : SessionManager) (f : Table) (k : Bytes)
    → Refines t s f
    → Refines t (destroy_session s k) (table_step f t (destroy k))
destroy-Refines t s f k r = record {
  functional =
      unfold destroy_session in erase-IsFunctional bytes_discrete k s.sessions r.functional;
  shows = λ j u h. ground (arith, r.shows j u h, active-destroy_session s k j u);
}

step-Refines :
    (t : ℕ) (s : SessionManager) (f : Table) (c : Call)
    → Refines t s f
    → Refines t (step s t c) (table_step f t c)
unfolding step create_session
step-Refines t s f (create username (some i) (some j)) r = create-Refines t s f username i j r
step-Refines t s f (create username none j) r = r
step-Refines t s f (create username (some i) none) r = r
step-Refines t s f (validate k) r =
    SameView-Refines t s _ f (validate_session-IsFunctional s k t r.functional)
      (validate_session_lem s k t).1 r
step-Refines t s f (get_csrf k) r =
    SameView-Refines t s _ f (get_csrf_token-IsFunctional s k t r.functional)
      (get_csrf_token_lem s k t).1 r
step-Refines t s f (check_csrf k token) r =
    SameView-Refines t s _ f (validate_csrf_token-IsFunctional s k token t r.functional)
      (validate_csrf_token-SameView s k token t) r
step-Refines t s f (destroy k) r = destroy-Refines t s f k r
step-Refines t s f cleanup r =
    SameView-Refines t s _ f
      (unfold cleanup_expired_sessions in
        retain-IsFunctional bytes_discrete (λ it. not (ltb it.expires_at t)) s.sessions
          r.functional)
      (cleanup_expired_sessions-SameView s t r.functional) r

Refines-later : (t u : ℕ) (s : SessionManager) (f : Table) → t ≤ u → Refines t s f → Refines u s f
Refines-later t u s f h r = record {
  functional = r.functional;
  shows = λ k v g. r.shows k v (omega arith);
}

-- From a store that shows what an abstract table shows, after any history of calls with a clock
-- that does not fall, an id stands for a live session exactly as in the table that keeps every
-- created session until it is destroyed or its lifetime is over: validation, CSRF checks and the
-- garbage collector's sweeps leave no trace.
pub run-Refines :
    (now : ℕ) (s : SessionManager) (f : Table) (cs : List (ℕ × Call))
    → Ascending now cs
    → Refines now s f
    → Refines (last_time now cs) (run s cs) (table_run f cs)
unfolding run table_run
run-Refines now s f [] a r = r
run-Refines now s f ((t, c) ∷ cs) (h, a) r =
    run-Refines t (step s t c) (table_step f t c) cs a
      (step-Refines t s f c (Refines-later now t s f h r))
