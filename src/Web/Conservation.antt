-- ===== src/Web/Conservation.antt =====
-- What the calls of the services keep is kept by every request: the handlers over any services.
use bartimaeus_app.Base.{
  inl, inr, Option-cases, Bool, true, false, Option, none, some, if◌then◌else◌, is_empty, not, ◌&&◌,
  ◌||◌,
}
use bartimaeus_app.Base.Bytes.{Bytes, bytes, is_eq}
use bartimaeus_app.Base.Int.{ℤ}
use bartimaeus_app.Helpers.Number.{safe_stoi}
use bartimaeus_app.Session.{SessionManager}
use bartimaeus_app.Web.Http.{Request, Response}
use bartimaeus_app.Web.Services.{
  AuthService, BoardService, AuthResult, success, fail, db_error, App, Env, Handled, done, threw,
  Handler, UserContext,
}
use bartimaeus_app.Web.Middleware.{
  require_auth, check_csrf, require_auth_and_csrf, check_admin, require_admin,
}
use bartimaeus_app.Web.AuthController.{
  is_valid_username, sign_up_reply, handle_sign_up, logged_in, login_success, login_reply,
  handle_login, handle_get_users, handle_get_me, handle_logout,
}
use bartimaeus_app.Web.BoardController.{
  is_missing, handle_create_post, handle_get_posts, show_post, handle_get_post_detail,
  delete_checked, delete_found, handle_delete_post,
}
use bartimaeus_app.Web.Routes.{
  Endpoint, post_signup, post_login, get_users, get_me, post_logout, create_post, get_posts,
  get_post, delete_post, serve,
}

module _ {D : Type 0} (Good : D → Type 0) (Thrown : D → Type 0) where
  -- What signUp leaves, by its result.
  abbrev pub SignedUp : Option AuthResult → D → Type 0
  SignedUp none d = Thrown d
  SignedUp (some result) d = Good d

  -- Every call of the services keeps the property of the database's state.
  pub record Keeps (auth_service : AuthService D) (board_service : BoardService D) : Type 0 where
    pub sign_up :
        (username password : Bytes) (d : D)
        → Good d
        → SignedUp
            (auth_service.sign_up username password d).0
            (auth_service.sign_up username password d).1
    pub login :
        (username password : Bytes) (d : D)
        → Good d
        → Good (auth_service.login username password d).1
    pub get_user_role :
        (username : Bytes) (d : D) → Good d → Good (auth_service.get_user_role username d).1
    pub get_all_users : (d : D) → Good d → Good (auth_service.get_all_users d).1
    pub write_post :
        (title content author : Bytes) (d : D)
        → Good d
        → Good (board_service.write_post title content author d).1
    pub get_all_posts : (d : D) → Good d → Good (board_service.get_all_posts d).1
    pub get_post_by_id : (id : ℤ) (d : D) → Good d → Good (board_service.get_post_by_id id d).1
    pub delete_post :
        (id : ℤ) (username role : Bytes) (d : D)
        → Good d
        → Good (board_service.delete_post id username role d).1

  -- How a handler ends: by an answer, or by an exception, of createSession or of signUp.
  pub data Ends : Handled D → Type 0 where
    answered : (app : App D) (res : Response) → Good app.db → Ends (done app res)
    failed : (app : App D) (res : Response) → Good app.db → Ends (threw app res)
    abandoned : (app : App D) (res : Response) → Thrown app.db → Ends (threw app res)

  abbrev Kept : (App D → Response → Handled D) → Type 0
  Kept f = (app : App D) (res : Response) → Good app.db → Ends (f app res)

  if-Ends : (b : Bool) (x y : Handled D) → Ends x → Ends y → Ends (if b then x else y)
  if-Ends true x y hx hy = hx
  if-Ends false x y hx hy = hy

  module _ (env : Env) (req : Request) where
    require_auth-Kept :
        (handler : Handler D)
        → ((ctx : UserContext) → Kept (handler ctx))
        → Kept (require_auth env req handler)
    unfolding require_auth
    require_auth-Kept handler k app res h = if-Ends _ _ _ (answered _ _ h) (k _ _ res h)

    check_csrf-Kept :
        (handler : Handler D)
        → ((ctx : UserContext) → Kept (handler ctx))
        → (ctx : UserContext) → Kept (check_csrf env req handler ctx)
    unfolding check_csrf
    check_csrf-Kept handler k ctx app res h = if-Ends _ _ _ (k ctx _ res h) (answered _ _ h)

    require_auth_and_csrf-Kept :
        (handler : Handler D)
        → ((ctx : UserContext) → Kept (handler ctx))
        → Kept (require_auth_and_csrf env req handler)
    unfolding require_auth_and_csrf
    require_auth_and_csrf-Kept handler k =
        require_auth-Kept (check_csrf env req handler) (check_csrf-Kept handler k)

  module _ (auth_service : AuthService D) (board_service : BoardService D)
      (keeps : Keeps auth_service board_service) (env : Env) (req : Request) where
    abbrev username_of_request : Bytes
    username_of_request = req.get_param_value (bytes "username")

    abbrev password_of_request : Bytes
    password_of_request = req.get_param_value (bytes "password")

    check_admin-Kept :
        (handler : Handler D)
        → ((ctx : UserContext) → Kept (handler ctx))
        → (ctx : UserContext) → Kept (check_admin env req auth_service handler ctx)
    unfolding check_admin
    check_admin-Kept handler k ctx app res h =
        let h' = keeps.get_user_role ctx.username app.db h in
        if-Ends _ _ _ (k ctx _ res h') (answered _ _ h')

    sign_up_reply-Ends :
        (res : Response) (app : App D) (result : Option AuthResult)
        → SignedUp result app.db
        → Ends (sign_up_reply auth_service env req res app result)
    unfolding sign_up_reply
    sign_up_reply-Ends res app none h = abandoned _ _ h
    sign_up_reply-Ends res app (some success) h = answered _ _ h
    sign_up_reply-Ends res app (some fail) h = answered _ _ h
    sign_up_reply-Ends res app (some db_error) h = answered _ _ h

    handle_sign_up-Kept : Kept (handle_sign_up auth_service env req)
    unfolding handle_sign_up
    handle_sign_up-Kept app res h =
        if-Ends (is_empty username_of_request || is_empty password_of_request) _ _ (answered _ _ h)
          (if-Ends (not (is_valid_username username_of_request)) _ _ (answered _ _ h) (
            sign_up_reply-Ends res _ _
              (keeps.sign_up username_of_request password_of_request app.db h)))

    logged_in-Ends :
        (app : App D) (res : Response) (created : Option (Bytes × SessionManager))
        → Good app.db
        → Ends (logged_in auth_service env req app res created)
    unfolding logged_in
    logged_in-Ends app res none h = failed _ _ h
    logged_in-Ends app res (some created) h = answered _ _ h

    login_reply-Ends :
        (app : App D) (res : Response) (result : AuthResult)
        → Good app.db
        → Ends (login_reply auth_service env req app res result)
    unfolding login_reply login_success
    login_reply-Ends app res success h = logged_in-Ends _ _ _ h
    login_reply-Ends app res fail h = answered _ _ h
    login_reply-Ends app res db_error h = answered _ _ h

    handle_login-Kept : Kept (handle_login auth_service env req)
    unfolding handle_login
    handle_login-Kept app res h =
        if-Ends (is_empty username_of_request || is_empty password_of_request) _ _ (answered _ _ h)
          (if-Ends (not (is_valid_username username_of_request)) _ _ (answered _ _ h) (
            if-Ends _ _ _ (answered _ _ h) (
              login_reply-Ends _ res _
                (keeps.login username_of_request password_of_request app.db h))))

    handle_create_post-Kept :
        (ctx : UserContext) → Kept (handle_create_post board_service auth_service req ctx)
    unfolding handle_create_post
    handle_create_post-Kept ctx app res h =
        let title = req.get_param_value (bytes "title") in
        let content = req.get_param_value (bytes "content") in
        let h' = keeps.write_post title content ctx.username app.db h in
        if-Ends (is_empty title || is_empty content) _ _ (answered _ _ h)
          (if-Ends _ _ _ (answered _ _ h') (answered _ _ h'))

    show_post-Kept : (id : ℤ) → Kept (show_post board_service auth_service req id)
    unfolding show_post
    show_post-Kept id app res h =
        let h' = keeps.get_post_by_id id app.db h in
        if-Ends _ _ _ (answered _ _ h') (answered _ _ h')

    delete_found-Kept :
        (id : ℤ) (ctx : UserContext) → Kept (delete_found board_service auth_service req id ctx)
    unfolding delete_found delete_checked
    delete_found-Kept id ctx app res h =
        let (post, db) = board_service.get_post_by_id id app.db in
        let (role, db') = auth_service.get_user_role ctx.username db in
        let found = keeps.get_post_by_id id app.db h in
        let looked = keeps.get_user_role ctx.username db found in
        let deleted = keeps.delete_post id ctx.username role db' looked in
        if-Ends (is_missing post) _ _ (answered _ _ found) (
          if-Ends (not (is_eq post.author ctx.username) && not (is_eq role (bytes "ADMIN"))) _ _
            (answered _ _ looked) (if-Ends _ _ _ (answered _ _ deleted) (answered _ _ deleted)))

    handle_get_post_detail-Kept :
        (ctx : UserContext) → Kept (handle_get_post_detail board_service auth_service req ctx)
    unfolding handle_get_post_detail
    handle_get_post_detail-Kept ctx app res h =
        elim (Option-cases (safe_stoi (req.get_param_value (bytes "id")))) [
          | inl e ↦ rw (handle_get_post_detail, e) (answered _ _ h)
          | inr (id, e) ↦ rw (handle_get_post_detail, e) (show_post-Kept id app res h)
        ]

    handle_delete_post-Kept :
        (ctx : UserContext) → Kept (handle_delete_post board_service auth_service req ctx)
    unfolding handle_delete_post
    handle_delete_post-Kept ctx app res h =
        elim (Option-cases (safe_stoi (req.get_param_value (bytes "id")))) [
          | inl e ↦ rw (handle_delete_post, e) (answered _ _ h)
          | inr (id, e) ↦ rw (handle_delete_post, e) (delete_found-Kept id ctx app res h)
        ]

    pub serve-Kept : (e : Endpoint) → Kept (serve auth_service board_service env req e)
    unfolding serve require_admin handle_get_users handle_get_me handle_logout handle_get_posts
    serve-Kept post_signup = handle_sign_up-Kept
    serve-Kept post_login = handle_login-Kept
    serve-Kept get_users =
        require_auth-Kept env req
          (check_admin env req auth_service (handle_get_users auth_service env req))
          (check_admin-Kept (handle_get_users auth_service env req)
            (λ ctx app res h. answered _ _ (keeps.get_all_users app.db h)))
    serve-Kept get_me =
        require_auth-Kept env req (handle_get_me auth_service env req)
          (λ ctx app res h. answered _ _ (keeps.get_user_role ctx.username app.db h))
    serve-Kept post_logout =
        require_auth_and_csrf-Kept env req (handle_logout auth_service env req)
          (λ ctx app res h. answered _ _ h)
    serve-Kept create_post =
        require_auth_and_csrf-Kept env req (handle_create_post board_service auth_service req)
          handle_create_post-Kept
    serve-Kept get_posts =
        require_auth-Kept env req (handle_get_posts board_service auth_service req)
          (λ ctx app res h. answered _ _ (keeps.get_all_posts app.db h))
    serve-Kept get_post =
        require_auth-Kept env req (handle_get_post_detail board_service auth_service req)
          handle_get_post_detail-Kept
    serve-Kept delete_post =
        require_auth_and_csrf-Kept env req (handle_delete_post board_service auth_service req)
          handle_delete_post-Kept
