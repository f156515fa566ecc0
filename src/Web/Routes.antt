-- ===== src/Web/Routes.antt =====
-- main of src/main.cpp: the handler that runs before the routing, and the routes.
use bartimaeus_app.Base.{
  ◌-◌, Bool, not, ◌&&◌, ◌||◌, [], Option, none, some, leb, if◌then◌else◌, is_empty, length, drop,
}
use bartimaeus_app.Base.Bytes.{Bytes, bytes, is_eq}
use bartimaeus_app.Session.{SessionManager, validate_session}
use bartimaeus_app.Web.Http.{Request, Response, set_status, set_redirect}
use bartimaeus_app.Web.Services.{AuthService, BoardService, App, Env, Handled}
use bartimaeus_app.Web.Middleware.{
  session_cookie, require_auth, require_auth_and_csrf, require_admin,
}
use bartimaeus_app.Web.AuthController.{
  handle_sign_up, handle_login, handle_get_users, handle_get_me, handle_logout,
}
use bartimaeus_app.Web.BoardController.{
  handle_create_post, handle_get_posts, handle_get_post_detail, handle_delete_post,
}

-- s.ends_with(suffix)
unfoldable pub ends_with : Bytes → Bytes → Bool
ends_with s suffix =
    leb (length suffix) (length s) && is_eq (drop (length s - length suffix) s) suffix

unfoldable pub is_page_request : Bytes → Bool
unfolding ends_with
is_page_request path = is_eq path (bytes "/") || ends_with path (bytes ".html")

unfoldable pub is_public_page : Bytes → Bool
is_public_page path =
    is_eq path (bytes "/login.html")
    || is_eq path (bytes "/signup.html")
    || is_eq path (bytes "/error.html")

-- `handled` ends the request with the response; `unhandled` goes on to the files and the routes.
pub data PreRouting (D : Type 0) : Type 0 where
  unhandled : App D → PreRouting D
  handled : App D → Response → PreRouting D

pub data Endpoint : Type 0 where
  post_signup post_login get_users get_me post_logout create_post get_posts get_post delete_post :
      Endpoint

-- svr.Post, svr.Get and svr.Delete
unfoldable pub route : Bytes → Bytes → Option Endpoint
route method path =
    if is_eq method (bytes "POST")
    then (if is_eq path (bytes "/signup")
        then some post_signup
        else if is_eq path (bytes "/login")
        then some post_login
        else if is_eq path (bytes "/logout")
        then some post_logout
        else if is_eq path (bytes "/api/post")
        then some create_post
        else none)
    else if is_eq method (bytes "GET")
    then (if is_eq path (bytes "/api/users")
        then some get_users
        else if is_eq path (bytes "/api/me")
        then some get_me
        else if is_eq path (bytes "/api/posts")
        then some get_posts
        else if is_eq path (bytes "/api/post")
        then some get_post
        else none)
    else if is_eq method (bytes "DELETE")
    then (if is_eq path (bytes "/api/post") then some delete_post else none)
    else none

module _ {D : Type 0} (auth_service : AuthService D) where
  -- The pages of a user who is logged in.
  page_for_user : Bytes → Bytes → App D → Response → PreRouting D
  page_for_user path username app res =
      let (role, db) = auth_service.get_user_role username app.db in
      let app' = record app { db = db } in
      if is_eq path (bytes "/")
      then handled app (set_redirect (bytes "/index.html") res)
      else if is_eq path (bytes "/admin.html")
      then (if is_eq role (bytes "ADMIN")
          then unhandled app'
          else handled app' (set_status 403 res))
      else unhandled app

  -- The name stays empty when there is no cookie at all.
  page_user : Env → Request → App D → Bytes × SessionManager
  page_user env req app =
      if req.has_header (bytes "Cookie")
      then validate_session app.session_manager (session_cookie req) (env.clock 0)
      else ([], app.session_manager)

  unfoldable pub pre_routing : Env → Request → App D → Response → PreRouting D
  unfolding page_for_user page_user is_page_request is_public_page
  pre_routing env req app res =
      let (username, sm) = page_user env req app in
      let app' = record app { session_manager = sm } in
      if not (is_page_request req.path) || is_public_page req.path
      then unhandled app
      else if is_empty username
      then handled app' (set_redirect (bytes "/login.html") res)
      else page_for_user req.path username app' res

module _ {D : Type 0} (auth_service : AuthService D) (board_service : BoardService D) where
  -- Each endpoint with its middleware.
  unfoldable pub serve : Env → Request → Endpoint → App D → Response → Handled D
  serve env req post_signup = handle_sign_up auth_service env req
  serve env req post_login = handle_login auth_service env req
  serve env req get_users =
      require_admin env req auth_service (handle_get_users auth_service env req)
  serve env req get_me = require_auth env req (handle_get_me auth_service env req)
  serve env req post_logout = require_auth_and_csrf env req (handle_logout auth_service env req)
  serve env req create_post =
      require_auth_and_csrf env req (handle_create_post board_service auth_service req)
  serve env req get_posts = require_auth env req (handle_get_posts board_service auth_service req)
  serve env req get_post =
      require_auth env req (handle_get_post_detail board_service auth_service req)
  serve env req delete_post =
      require_auth_and_csrf env req (handle_delete_post board_service auth_service req)
