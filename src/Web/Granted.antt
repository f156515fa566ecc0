-- ===== src/Web/Granted.antt =====
-- Whom the middleware of src/middleware.hpp hands to the handlers of the endpoints behind the login.
use bartimaeus_app.Base.{◌≡◌, refl, ◌⊎◌, inl, inr, true, Bool-cases, is_empty}
use bartimaeus_app.Base.Bytes.{bytes, is_eq}
use bartimaeus_app.Session.View.{validate_session_lem}
use bartimaeus_app.Web.Http.{Request, Response, reply}
use bartimaeus_app.Web.Services.{
  AuthService, BoardService, App, Env, Handled, done, UserContext, Handler,
}
use bartimaeus_app.Web.Middleware.{
  session_cookie, require_auth, check_csrf, require_auth_and_csrf, check_admin, require_admin,
}
use bartimaeus_app.Web.AuthController.{
  handle_sign_up, handle_login, handle_get_users, handle_get_me, handle_logout,
}
use bartimaeus_app.Web.BoardController.{
  handle_create_post, handle_get_posts, handle_get_post_detail, handle_delete_post,
}
use bartimaeus_app.Web.Routes.{
  Endpoint, post_signup, post_login, get_users, get_me, post_logout, create_post, get_posts,
  get_post, delete_post, serve,
}
use bartimaeus_app.Web.Access.{
  unauthorized, bad_csrf, looked_up, current_user, needs_session, is_guarded, csrf_result, expelled,
}

-- The user of the live session that the request's cookie names, with that cookie.
abbrev pub context_of : {D : Type 0} → Env → Request → App D → UserContext
context_of env req app = record {
  username = current_user env req app;
  session_id = session_cookie req;
}

-- The application behind the check of the CSRF token.
abbrev checked : {D : Type 0} → Env → Request → App D → App D
checked env req app =
    let seen = looked_up env req app in
    record seen { session_manager = (csrf_result env req seen).1 }

abbrev pub not_admin : Response → Response
not_admin =
    reply 403
      (bytes "{\"status\":\"error\", \"message\":\"Not authorized to access this function\"}")

module _ {D : Type 0} (auth_service : AuthService D) (board_service : BoardService D) (env : Env)
    (req : Request) where
  -- The controller's function of an endpoint.
  abbrev pub handler_of : Endpoint → Handler D
  handler_of post_signup = λ ctx. handle_sign_up auth_service env req
  handler_of post_login = λ ctx. handle_login auth_service env req
  handler_of get_users = handle_get_users auth_service env req
  handler_of get_me = handle_get_me auth_service env req
  handler_of post_logout = handle_logout auth_service env req
  handler_of create_post = handle_create_post board_service auth_service req
  handler_of get_posts = handle_get_posts board_service auth_service req
  handler_of get_post = handle_get_post_detail board_service auth_service req
  handler_of delete_post = handle_delete_post board_service auth_service req

  -- The application behind the look at the session, and behind the question for the role.
  abbrev asked : App D → App D
  asked app =
      let seen = looked_up env req app in
      record seen { db = (auth_service.get_user_role (current_user env req app) seen.db).1 }

  -- What the middleware of an endpoint leaves to the handler.
  abbrev pub reached : Endpoint → App D → App D
  reached get_users app = asked app
  reached post_logout app = checked env req app
  reached create_post app = checked env req app
  reached delete_post app = checked env req app
  reached _ app = looked_up env req app

  -- The answer of the endpoint's handler to the user of the request's session, or one of the two
  -- refusals of somebody who is logged in.
  pub data ServesUser (e : Endpoint) (app : App D) (res : Response) : Handled D → Type 0 where
    served : ServesUser e app res (handler_of e (context_of env req app) (reached e app) res)
    forged :
        is_guarded e ≡ true
        → ServesUser e app res (done (expelled env req (looked_up env req app)) (bad_csrf res))
    no_admin : e ≡ get_users → ServesUser e app res (done (asked app) (not_admin res))

  -- 401, or the handler with the session's user.
  require_auth_cases :
      (handler : Handler D) (app : App D) (res : Response)
      → (require_auth env req handler app res ≡ done (looked_up env req app) (unauthorized res))
        ⊎ (require_auth env req handler app res
            ≡ handler (context_of env req app) (looked_up env req app) res)
  unfolding require_auth
  require_auth_cases handler app res =
      let seen = (validate_session_lem app.session_manager (session_cookie req) (env.clock 0)).0 in
      elim (Bool-cases (is_empty (current_user env req app))) [
        | inl e ↦ inl (rw (seen, e) refl)
        | inr e ↦ inr (rw (seen, e) refl)
      ]

  check_csrf_cases :
      (handler : Handler D) (app : App D) (res : Response)
      → (check_csrf env req handler (context_of env req app) (looked_up env req app) res
          ≡ done (expelled env req (looked_up env req app)) (bad_csrf res))
        ⊎ (check_csrf env req handler (context_of env req app) (looked_up env req app) res
            ≡ handler (context_of env req app) (checked env req app) res)
  unfolding check_csrf
  check_csrf_cases handler app res =
      elim (Bool-cases (csrf_result env req (looked_up env req app)).0) [
        | inl e ↦ inr (rw e refl)
        | inr e ↦ inl (rw e refl)
      ]

  check_admin_cases :
      (handler : Handler D) (app : App D) (res : Response)
      → (check_admin env req auth_service handler
            (context_of env req app)
            (looked_up env req app)
            res
          ≡ done (asked app) (not_admin res))
        ⊎ (check_admin env req auth_service handler
              (context_of env req app)
              (looked_up env req app)
              res
            ≡ handler (context_of env req app) (asked app) res)
  unfolding check_admin
  check_admin_cases handler app res =
      let role =
        (auth_service.get_user_role (current_user env req app) (looked_up env req app).db).0 in
      elim (Bool-cases (is_eq role (bytes "ADMIN"))) [
        | inl e ↦ inr (rw e refl)
        | inr e ↦ inl (rw e refl)
      ]

  -- 401, or what the guarded handler does with the session's user.
  abbrev Answers : Endpoint → App D → Response → Handled D → Type 0
  Answers e app res out =
      (out ≡ done (looked_up env req app) (unauthorized res)) ⊎ ServesUser e app res out

  plain :
      (e : Endpoint) (app : App D) (res : Response)
      → reached e app ≡ looked_up env req app
      → Answers e app res (require_auth env req (handler_of e) app res)
  plain e app res same = elim (require_auth_cases (handler_of e) app res) [
    | inl refused ↦ inl refused
    | inr given ↦ inr (rw (given, ← same) served)
  ]

  guarded :
      (e : Endpoint) (app : App D) (res : Response)
      → is_guarded e ≡ true
      → reached e app ≡ checked env req app
      → Answers e app res (require_auth_and_csrf env req (handler_of e) app res)
  unfolding require_auth_and_csrf
  guarded e app res g same = elim (require_auth_cases (check_csrf env req (handler_of e)) app res) [
    | inl refused ↦ inl refused
    | inr given ↦ elim (check_csrf_cases (handler_of e) app res) [
      | inl wrong ↦ inr (rw (given, wrong) (forged g))
      | inr right ↦ inr (rw (given, right, ← same) served)
    ]
  ]

  -- An endpoint behind the login answers 401, or it serves the user of the request's session.
  pub serve-ServesUser :
      (e : Endpoint) (app : App D) (res : Response)
      → needs_session e ≡ true
      → Answers e app res (serve auth_service board_service env req e app res)
  unfolding serve require_admin
  serve-ServesUser post_signup app res n = cc
  serve-ServesUser post_login app res n = cc
  serve-ServesUser get_users app res n =
      elim (require_auth_cases (check_admin env req auth_service (handler_of get_users)) app res) [
        | inl refused ↦ inl refused
        | inr given ↦ elim (check_admin_cases (handler_of get_users) app res) [
          | inl other ↦ inr (rw (given, other) (no_admin refl))
          | inr admin ↦ inr (rw (given, admin) served)
        ]
      ]
  serve-ServesUser get_me app res n = plain get_me app res refl
  serve-ServesUser post_logout app res n = guarded post_logout app res refl refl
  serve-ServesUser create_post app res n = guarded create_post app res refl refl
  serve-ServesUser get_posts app res n = plain get_posts app res refl
  serve-ServesUser get_post app res n = plain get_post app res refl
  serve-ServesUser delete_post app res n = guarded delete_post app res refl refl
