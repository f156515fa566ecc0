-- ===== src/Web/History/Revoked.antt =====
-- A session that a logout ended (src/controllers/auth_controller.hpp, src/middleware.hpp), and every
-- history of src/main.cpp after it.
use bartimaeus_app.Base.{◌≡◌, ◌≢◌, inl, inr, true, Bool-cases, List, [], is_empty-of_ne}
use bartimaeus_app.Base.Bytes.{Bytes, bytes_discrete}
use bartimaeus_app.Base.Map.{HoldsOf, erase-IsAbsent}
use bartimaeus_app.Session.{Session, SessionManager, destroy_session}
use bartimaeus_app.Session.View.{validate_session_lem}
use bartimaeus_app.Web.Http.{Request, Response}
use bartimaeus_app.Web.Services.{AuthService, BoardService, App, Env, done}
use bartimaeus_app.Web.Middleware.{session_cookie, require_auth, check_csrf, require_auth_and_csrf}
use bartimaeus_app.Web.AuthController.{handle_logout}
use bartimaeus_app.Web.Routes.{Endpoint, post_logout, serve}
use bartimaeus_app.Web.Access.{
  unauthorized, looked_up, current_user, needs_session, serve-unauthorized, csrf_result,
}
use bartimaeus_app.Web.History.{Event, request, started, app_of, step, run, Admits}
use bartimaeus_app.Web.History.Sound.{IsSound}
use bartimaeus_app.Web.History.Served.{application, run-IsSound, step-IsSound, owner-cases}

-- No session has the id.
abbrev pub IsGone : Bytes → SessionManager → Type 0
IsGone k s = HoldsOf bytes_discrete (λ j (it : Session). j ≢ k) s.sessions

destroy_session-IsGone : (s : SessionManager) (k : Bytes) → IsGone k (destroy_session s k)
unfolding destroy_session
destroy_session-IsGone s k = erase-IsAbsent bytes_discrete k s.sessions

module _ {D : Type 0} (auth_service : AuthService D) (board_service : BoardService D) where
  check_csrf-IsGone :
      (env : Env) (req : Request) (app : App D) (res : Response) (username : Bytes)
      → IsGone
          (session_cookie req)
          (app_of (
            check_csrf env req
              (handle_logout auth_service env req)
              (record { username = username; session_id = session_cookie req })
              app
              res)).session_manager
  unfolding check_csrf handle_logout
  check_csrf-IsGone env req app res username = elim (Bool-cases (csrf_result env req app).0) [
    | inl e ↦ rw e (destroy_session-IsGone _ (session_cookie req))
    | inr e ↦ rw e (destroy_session-IsGone _ (session_cookie req))
  ]

  -- A logout of somebody who is logged in takes the session away, also with a wrong token.
  post_logout-IsGone :
      (env : Env) (req : Request) (app : App D) (res : Response)
      → current_user env req app ≢ []
      → IsGone
          (session_cookie req)
          (step auth_service board_service app (request env req post_logout res)).session_manager
  unfolding step serve require_auth_and_csrf require_auth
  post_logout-IsGone env req app res n =
      let seen = (validate_session_lem app.session_manager (session_cookie req) (env.clock 0)).0 in
      rw (seen, is_empty-of_ne (current_user env req app) n)
        (check_csrf-IsGone env req (looked_up env req app) res (current_user env req app))

module _ {D : Type 0} (auth_service : AuthService D) (board_service : BoardService D) (db : D)
    (before : List Event) (env : Env) (req : Request) (res : Response) where
  -- The application at the logout, after it, and after what follows.
  abbrev pub app : App D
  app = application auth_service board_service db before

  abbrev pub ended : App D
  ended = step auth_service board_service app (request env req post_logout res)

  abbrev pub after : List Event → App D
  after events = run auth_service board_service ended events

  -- The logged-out id is in no entry.
  ended-IsSound :
      current_user env req app ≢ [] → IsSound (λ id username. id ≢ session_cookie req) ended
  ended-IsSound n =
      let kept : IsSound (λ id username. Unit) app =
        run-IsSound (λ id username. Unit) auth_service board_service (started db) before
          (λ id username a. tt)
          (record { sessions = record { functional = tt; owned = tt }; attempts = tt }) in
      let ended' =
        step-IsSound (λ id username. Unit) auth_service board_service
          (request env req post_logout res) app [] (λ id username a. tt) kept in
      record {
        sessions = record {
          functional = ended'.sessions.functional;
          owned = post_logout-IsGone auth_service board_service env req app res n;
        };
        attempts = ended'.attempts;
      }

  -- After any history of the application, let somebody who is logged in ask for a logout, with
  -- the right token or not, and let any history follow in which no login is let in that makes
  -- the same session id again. Then a request that shows the id to an endpoint behind the login
  -- is answered 401.
  pub serve-revoked :
      (events : List Event) (env' : Env) (req' : Request) (e : Endpoint) (res' : Response)
      → current_user env req app ≢ []
      → ((username : Bytes)
          → ¬ Admits auth_service board_service ended events (session_cookie req) username)
      → session_cookie req' ≡ session_cookie req
      → needs_session e ≡ true
      → serve auth_service board_service env' req' e (after events) res'
        ≡ done (looked_up env' req' (after events)) (unauthorized res')
  serve-revoked events env' req' e res' n fresh same b =
      let sound =
        run-IsSound (λ id username. id ≢ session_cookie req) auth_service board_service ended events
          (λ id username a k. fresh username (rw (← k) a)) (ended-IsSound n) in
      elim (owner-cases (λ id username. id ≢ session_cookie req) (after events).session_manager
        (session_cookie req') (env'.clock 0) sound.sessions) [
          | inl nobody ↦
              (serve-unauthorized auth_service board_service env' req' (after events) res' e b
                nobody).0
          | inr other ↦ absurd (other same)
        ]
