-- ===== src/Web/Access.antt =====
-- Who gets through the middleware of each endpoint, and what is left unchanged when nobody does.
use bartimaeus_app.Base.{
  ℕ, ◌≤◌, ◌≡◌, refl, ap, ◌∙◌, ◌≢◌, ◌⊎◌, inl, inr, Bool, true, false, [], Option, none, some, arith,
  is_empty-of_ne, ite, Bool-cases,
}
use bartimaeus_app.Base.Bytes.{Bytes, bytes, bytes_discrete}
use bartimaeus_app.Session.{
  Session, SessionManager, validate_session, validate_csrf_token, destroy_session,
}
use bartimaeus_app.Session.View.{
  active, username_of, token_of, SameView, validate_session_lem, validate_csrf_token_iff,
  validate_session-active, validate_csrf_token-active, validate_csrf_token-SameView,
  active-destroy_session,
}
use bartimaeus_app.Web.Http.{Request, Response, reply, set_header}
use bartimaeus_app.Web.Services.{AuthService, BoardService, App, Env, done, UserContext, Handler}
use bartimaeus_app.Web.Middleware.{
  session_cookie, expired_cookie, require_auth, check_csrf, require_auth_and_csrf, check_admin,
  require_admin,
}
use bartimaeus_app.Web.AuthController.{handle_get_users, handle_get_me, handle_logout}
use bartimaeus_app.Web.BoardController.{
  handle_create_post, handle_get_posts, handle_get_post_detail, handle_delete_post,
}
use bartimaeus_app.Web.Routes.{
  Endpoint, post_signup, post_login, get_users, get_me, post_logout, create_post, get_posts,
  get_post, delete_post, serve,
}

abbrev pub unauthorized : Response → Response
unauthorized = reply 401 (bytes "{\"status\":\"error\", \"message\":\"Unauthorized\"}")

abbrev pub bad_csrf : Response → Response
bad_csrf res =
    reply 403 (bytes "{\"status\":\"error\", \"message\":\"CSRF token is invalid\"}")
      (set_header (bytes "Set-Cookie") expired_cookie res)

abbrev pub csrf_header : Request → Bytes
csrf_header req = req.get_header_value (bytes "X-CSRF-TOKEN")

-- What the handlers get: the user of the session `it`, and the request's cookie.
abbrev pub context : Request → Session → UserContext
context req it = record { username = it.username; session_id = session_cookie req }

module _ {D : Type 0} (env : Env) (req : Request) where
  -- The user of the session that the request's cookie names.
  abbrev pub current_user : App D → Bytes
  current_user app = username_of (active app.session_manager (session_cookie req) (env.clock 0))

  -- The application after a look at the session.
  abbrev pub looked_up : App D → App D
  looked_up app = record app {
    session_manager = (validate_session app.session_manager (session_cookie req) (env.clock 0)).1;
  }

  require_auth-denied :
      (handler : Handler D) (app : App D) (res : Response)
      → current_user app ≡ []
      → require_auth env req handler app res ≡ done (looked_up app) (unauthorized res)
  unfolding require_auth
  require_auth-denied handler app res h =
      let seen = (validate_session_lem app.session_manager (session_cookie req) (env.clock 0)).0 in
      rw (seen, h) refl

  require_auth-granted :
      (handler : Handler D) (app : App D) (res : Response) (it : Session)
      → active app.session_manager (session_cookie req) (env.clock 0) ≡ some it
      → it.username ≢ []
      → require_auth env req handler app res ≡ handler (context req it) app res
  unfolding require_auth
  require_auth-granted handler app res it h n =
      let seen =
        validate_session-active app.session_manager (session_cookie req) (env.clock 0) it h in
      rw (seen, is_empty-of_ne it.username n) refl

  -- The token of the session that the request's cookie names.
  abbrev pub session_token : App D → ℕ → Bytes
  session_token app t = token_of (active app.session_manager (session_cookie req) t)

  abbrev pub csrf_result : App D → Bool × SessionManager
  csrf_result app =
      validate_csrf_token app.session_manager (session_cookie req) (csrf_header req) (env.clock 1)

  -- The token is missing, or is not the session's.
  abbrev pub IsForged : App D → Type 0
  IsForged app = (csrf_header req ≡ []) ⊎ (session_token app (env.clock 1) ≢ csrf_header req)

  csrf_result-forged : (app : App D) → IsForged app → (csrf_result app).0 ≡ false
  csrf_result-forged app h = elim (Bool-cases (csrf_result app).0) [
    | inl accepted ↦
        let (given, equal) =
          (validate_csrf_token_iff app.session_manager (session_cookie req) (csrf_header req)
              (env.clock 1)).0
            accepted in
        absurd (ground arith)
    | inr refused ↦ refused
  ]

  -- The session is gone afterwards.
  abbrev pub expelled : App D → App D
  expelled app = record app {
    session_manager = destroy_session (csrf_result app).1 (session_cookie req);
  }

  check_csrf-denied :
      (handler : Handler D) (it : Session) (app : App D) (res : Response)
      → IsForged app
      → check_csrf env req handler (context req it) app res ≡ done (expelled app) (bad_csrf res)
  unfolding check_csrf
  check_csrf-denied handler it app res h = rw (csrf_result-forged app h) refl

  check_csrf-granted :
      (handler : Handler D) (it : Session) (app : App D) (res : Response)
      → active app.session_manager (session_cookie req) (env.clock 1) ≡ some it
      → csrf_header req ≢ []
      → it.csrf_token ≡ csrf_header req
      → check_csrf env req handler (context req it) app res ≡ handler (context req it) app res
  unfolding check_csrf
  check_csrf-granted handler it app res h n e =
      let accepted : (csrf_result app).0 ≡ true =
        (validate_csrf_token_iff app.session_manager (session_cookie req) (csrf_header req)
            (env.clock 1)).1
          (n, rw h e) in
      rw
        (
          accepted,
          validate_csrf_token-active app.session_manager (session_cookie req) (csrf_header req)
              (env.clock 1) it h,
        )
        refl

  require_auth_and_csrf-denied :
      (handler : Handler D) (app : App D) (res : Response) (it : Session)
      → active app.session_manager (session_cookie req) (env.clock 0) ≡ some it
      → it.username ≢ []
      → IsForged app
      → require_auth_and_csrf env req handler app res ≡ done (expelled app) (bad_csrf res)
  require_auth_and_csrf-denied handler app res it h n forged =
      unfold require_auth_and_csrf in
      (require_auth-granted (check_csrf env req handler) app res it h n
        ∙ check_csrf-denied handler it app res forged)

-- The endpoints behind the CSRF check: those that change something for a user who is logged in.
abbrev pub is_guarded : Endpoint → Bool
is_guarded post_logout = true
is_guarded create_post = true
is_guarded delete_post = true
is_guarded _ = false

abbrev pub needs_session : Endpoint → Bool
needs_session post_signup = false
needs_session post_login = false
needs_session _ = true

module _ {D : Type 0} (auth_service : AuthService D) (board_service : BoardService D) (env : Env)
    (req : Request) (app : App D) (res : Response) where
  refused :
      (handler : Handler D)
      → current_user env req app ≡ []
      → (require_auth env req handler app res ≡ done (looked_up env req app) (unauthorized res))
        × ((looked_up env req app).db ≡ app.db)
        × ((looked_up env req app).login_limiter ≡ app.login_limiter)
        × SameView (env.clock 0) app.session_manager (looked_up env req app).session_manager
  refused handler h = (
    require_auth-denied env req handler app res h,
    refl,
    refl,
    (validate_session_lem app.session_manager (session_cookie req) (env.clock 0)).1,
  )

  -- When the request's cookie names no live session, every endpoint but sign-up and login answers
  -- 401, and leaves the database, the limiter and what each session id stands for as they were.
  pub serve-unauthorized :
      (e : Endpoint)
      → needs_session e ≡ true
      → current_user env req app ≡ []
      → (serve auth_service board_service env req e app res
          ≡ done (looked_up env req app) (unauthorized res))
        × ((looked_up env req app).db ≡ app.db)
        × ((looked_up env req app).login_limiter ≡ app.login_limiter)
        × SameView (env.clock 0) app.session_manager (looked_up env req app).session_manager
  unfolding serve require_auth_and_csrf require_admin
  serve-unauthorized post_signup n h = cc
  serve-unauthorized post_login n h = cc
  serve-unauthorized get_users n h =
      refused (check_admin env req auth_service (handle_get_users auth_service env req)) h
  serve-unauthorized get_me n h = refused (handle_get_me auth_service env req) h
  serve-unauthorized post_logout n h =
      refused (check_csrf env req (handle_logout auth_service env req)) h
  serve-unauthorized create_post n h =
      refused (check_csrf env req (handle_create_post board_service auth_service req)) h
  serve-unauthorized get_posts n h = refused (handle_get_posts board_service auth_service req) h
  serve-unauthorized get_post n h =
      refused (handle_get_post_detail board_service auth_service req) h
  serve-unauthorized delete_post n h =
      refused (check_csrf env req (handle_delete_post board_service auth_service req)) h

  expelled-view :
      (k : Bytes) (t : ℕ)
      → env.clock 1 ≤ t
      → active (expelled env req app).session_manager k t
        ≡ ite (bytes_discrete (session_cookie req) k) none (active app.session_manager k t)
  expelled-view k t h =
      active-destroy_session (csrf_result env req app).1 (session_cookie req) k t
      ∙ ap (λ (a : Option Session). ite (bytes_discrete (session_cookie req) k) none a)
          (validate_csrf_token-SameView app.session_manager (session_cookie req) (csrf_header req)
            (env.clock 1) k t h)

  -- When the request's cookie names a live session of a user, and the CSRF token is missing or is
  -- not the session's, then logging out, writing and deleting answer 403, leave the database and
  -- the limiter as they were, and end that session at once; other ids stand for what they stood
  -- for.
  pub serve-forged :
      (e : Endpoint) (it : Session)
      → is_guarded e ≡ true
      → active app.session_manager (session_cookie req) (env.clock 0) ≡ some it
      → it.username ≢ []
      → IsForged env req app
      → (serve auth_service board_service env req e app res
          ≡ done (expelled env req app) (bad_csrf res))
        × ((expelled env req app).db ≡ app.db)
        × ((expelled env req app).login_limiter ≡ app.login_limiter)
        × ((k : Bytes) (t : ℕ)
            → env.clock 1 ≤ t
            → active (expelled env req app).session_manager k t
              ≡ ite (bytes_discrete (session_cookie req) k) none (active app.session_manager k t))
  unfolding serve
  serve-forged post_logout it g h n f = (
    require_auth_and_csrf-denied env req (handle_logout auth_service env req) app res it h n f,
    refl,
    refl,
    expelled-view,
  )
  serve-forged create_post it g h n f = (
    require_auth_and_csrf-denied env req (handle_create_post board_service auth_service req) app res
        it h n f,
    refl,
    refl,
    expelled-view,
  )
  serve-forged delete_post it g h n f = (
    require_auth_and_csrf-denied env req (handle_delete_post board_service auth_service req) app res
        it h n f,
    refl,
    refl,
    expelled-view,
  )
  serve-forged _ it g h n f = cc
