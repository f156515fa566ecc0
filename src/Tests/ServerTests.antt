-- ===== src/Tests/ServerTests.antt =====
-- The theorems on the error handlers and the collector.
use bartimaeus_app.Base.{
  ℕ, ◌+◌, ◌≤◌, ◌≡◌, refl, false, Bool, [], ◌∷◌, none, some, arith, leb, List, ℕ_discrete,
}
use bartimaeus_app.Base.Bytes.{Bytes, bytes, bytes_discrete}
use bartimaeus_app.Base.Map.{find, IsFunctional}
use bartimaeus_app.Limiter.{LoginAttempt, LoginLimiter}
use bartimaeus_app.Session.{Session, SessionManager}
use bartimaeus_app.Web.Http.{Request, Response}
use bartimaeus_app.Web.Errors.Files.{Files, Output, handle_error, handle_exception}
use bartimaeus_app.Web.Errors.Logged.{IsLine, IsLogged, exception-Logged}
use bartimaeus_app.Web.Errors.Answers.{IsAnswer}
use bartimaeus_app.Web.Collector.{Collected, collect}
use bartimaeus_app.Web.Collector.Quiet.{IsQuiet, collect-ends, collect-IsQuiet}

-- A request for a path.
abbrev request : Bytes → Request
request path = record {
  method = bytes "GET";
  path = path;
  has_header = λ n. false;
  get_header_value = λ n. [];
  get_param_value = λ n. [];
}

abbrev response : Response
response = record { status = none; headers = []; body = []; content_type = [] }

abbrev page : Bytes
page = bytes "<h1>{{TITLE}}</h1>"

abbrev digits : List ℕ
digits = 1 ∷ 2 ∷ 3 ∷ 10 ∷ 11 ∷ 15 ∷ []

abbrev stop : ℕ → Bool
stop n = leb 15 n

abbrev clock : ℕ → ℕ
clock n = 100 + n

abbrev session : ℕ → Session
session t = record { username = bytes "bob"; csrf_token = bytes "t"; expires_at = t }

abbrev sessions : SessionManager
sessions = record { sessions = (bytes "a", session 5) ∷ (bytes "b", session 500) ∷ [] }

abbrev attempt : LoginAttempt
attempt = record { failed_attempts = 1; lockout_until = 0; last_fail_time = 3 }

abbrev limiter : LoginLimiter
limiter = record { attempts = (bytes "bob", attempt) ∷ [] }

keys : IsFunctional bytes_discrete sessions.sessions
unfolding find bytes_discrete bytes ℕ_discrete
keys = (refl, (refl, tt))

users : IsFunctional bytes_discrete limiter.attempts
unfolding find
users = (refl, tt)

collect-ends_example :
    (c : Collected) × (collect stop clock 16 0 0 sessions limiter ≡ some c) × (c.queries ≤ 17)
collect-ends_example =
    collect-ends stop clock 15 16 0 0 sessions limiter (λ i j h e. ground arith) refl (omega arith)
      (omega arith)

collect-IsQuiet_example :
    IsQuiet stop clock 0 sessions limiter (collect stop clock 16 0 0 sessions limiter)
collect-IsQuiet_example =
    collect-IsQuiet stop clock 16 0 0 sessions limiter (λ i j h. omega arith) keys users

-- A disk with a log, and without the page.
abbrev disk : Files (List Bytes)
disk = record { read = λ path lines. none; append = λ path line lines. some (line ∷ lines) }

abbrev empty_disk : Output (List Bytes)
empty_disk = record { files = []; console = [] }

exception-Logged_example :
    (res' : Response) × (out' : Output (List Bytes)) × (out'' : Output (List Bytes))
    × (first : Bytes) × (second : Bytes) × (handle_exception disk digits
          (bytes "now")
          (request (bytes "/login"))
          (some (bytes "secret"))
          response
          empty_disk
        ≡ some (res', out'))
    × IsLine digits (bytes "now") (request (bytes "/login")) (bytes "secret") first
    × IsLogged disk first empty_disk out'
    × (handle_error disk (0 ∷ []) (bytes "later") (request (bytes "/login")) res' out'
        ≡ some (res', out''))
    × IsLine
        (0 ∷ [])
        (bytes "later")
        (request (bytes "/login"))
        (bytes "Internal Server Error")
        second
    × IsLogged disk second out' out''
    × IsAnswer (some 500) res'
exception-Logged_example =
    exception-Logged disk (request (bytes "/login")) (some (bytes "secret")) response empty_disk
      digits (0 ∷ []) (bytes "now") (bytes "later")
