-- ===== src/Web/History.antt =====
-- src/main.cpp as a whole: any sequence of requests to the endpoints and for pages, and of sweeps of
-- the collector thread, on the stores and the database that they share.
pub mod Sound
pub mod Ends
pub mod Requests
pub mod Served
pub mod Proven
pub mod Revoked
use bartimaeus_app.Base.{ℕ, ◌≡◌, true, List, [], ◌∷◌, some}
use bartimaeus_app.Base.Bytes.{Bytes, bytes}
use bartimaeus_app.Hex.{hex}
use bartimaeus_app.Limiter.{get_remaining_lockout_time, cleanup_expired_attempts}
use bartimaeus_app.Session.{cleanup_expired_sessions}
use bartimaeus_app.Web.Http.{Request, Response}
use bartimaeus_app.Web.Services.{AuthService, BoardService, success, App, Env, Handled, done, threw}
use bartimaeus_app.Web.AuthController.{is_valid_username}
use bartimaeus_app.Web.Routes.{
  Endpoint, post_login, serve, PreRouting, unhandled, handled, pre_routing,
}

-- main's initSM and initLL: both stores are empty.
abbrev pub started : {D : Type 0} → D → App D
started db = record {
  session_manager = record { sessions = [] };
  login_limiter = record { attempts = [] };
  db = db;
}

-- `sweep` is one round of the collector, with its two readings of the clock.
pub data Event : Type 0 where
  request : Env → Request → Endpoint → Response → Event
  page : Env → Request → Response → Event
  sweep : ℕ → ℕ → Event

-- What an exception leaves stays; the exception handler changes none of it.
abbrev pub app_of : {D : Type 0} → Handled D → App D
app_of (done app res) = app
app_of (threw app res) = app

abbrev pub app_before : {D : Type 0} → PreRouting D → App D
app_before (unhandled app) = app
app_before (handled app res) = app

module _ {D : Type 0} (auth_service : AuthService D) where
  -- A login that is let in: a name of the right form which is not locked out, with a password that
  -- AuthService accepts.
  pub record Accepted (env : Env) (req : Request) (app : App D) : Type 0 where
    pub valid : is_valid_username (req.get_param_value (bytes "username")) ≡ true
    pub unlocked :
        (get_remaining_lockout_time app.login_limiter
          (req.get_param_value (bytes "username"))
          (env.clock 0)).0
        ≡ 0
    pub password_accepted :
        (auth_service.login
          (req.get_param_value (bytes "username"))
          (req.get_param_value (bytes "password"))
          app.db).0
        ≡ success

module _ {D : Type 0} (auth_service : AuthService D) (board_service : BoardService D) where
  unfoldable pub step : App D → Event → App D
  step app (request env req e res) = app_of (serve auth_service board_service env req e app res)
  step app (page env req res) = app_before (pre_routing auth_service env req app res)
  step app (sweep now later) = record app {
    session_manager = cleanup_expired_sessions app.session_manager now;
    login_limiter = cleanup_expired_attempts app.login_limiter later;
  }

  unfoldable pub run : App D → List Event → App D
  unfolding step
  run app [] = app
  run app (event ∷ events) = run (step app event) events

  -- The history lets a login of the user in, and createSession makes the session id for it.
  pub data Admits : App D → List Event → Bytes → Bytes → Type 0 where
    admitted :
        {env : Env} {req : Request} {res : Response} {app : App D} {events : List Event}
        {id_buffer : List ℕ}
        → Accepted auth_service env req app
        → env.random 0 ≡ some id_buffer
        → Admits app
            (request env req post_login res ∷ events)
            (hex id_buffer)
            (req.get_param_value (bytes "username"))
    afterwards :
        {app : App D} {event : Event} {events : List Event} {session_id username : Bytes}
        → Admits (step app event) events session_id username
        → Admits app (event ∷ events) session_id username
