-- ===== src/Web/History/Requests.antt =====
-- Every request keeps the invariant of the two stores: the handlers, behind their middleware.
use bartimaeus_app.Base.{
  ◌≡◌, refl, inl, inr, Option-cases, ℕ, List, Option, none, some, arith, is_empty, not, ◌&&◌, ◌||◌,
  ltb,
}
use bartimaeus_app.Base.Bytes.{Bytes, bytes, is_eq}
use bartimaeus_app.Base.Int.{ℤ}
use bartimaeus_app.Helpers.Number.{safe_stoi}
use bartimaeus_app.Hex.{hex}
use bartimaeus_app.Limiter.{get_remaining_lockout_time}
use bartimaeus_app.Session.{SessionManager}
use bartimaeus_app.Web.Http.{Request, Response}
use bartimaeus_app.Web.Services.{
  AuthService, BoardService, AuthResult, success, fail, db_error, App, Env, Handler, UserContext,
}
use bartimaeus_app.Web.Middleware.{check_admin, require_admin}
use bartimaeus_app.Web.AuthController.{
  is_valid_username, sign_up_reply, handle_sign_up, logged_in, login_success, login_reply,
  handle_login, handle_get_users, handle_get_me, handle_logout,
}
use bartimaeus_app.Web.BoardController.{
  is_missing, handle_create_post, handle_get_posts, show_post, handle_get_post_detail,
  delete_checked, delete_found, handle_delete_post,
}
use bartimaeus_app.Web.Routes.{
  Endpoint, post_signup, post_login, get_users, get_me, post_logout, create_post, get_posts,
  get_post, delete_post, serve,
}
use bartimaeus_app.Web.History.{Accepted}
use bartimaeus_app.Web.History.Sound.{
  IsSound, with_db, with_sessions, with_attempts, CreatedOwned, get_csrf_token-AreOwned,
  destroy_session-AreOwned, create_session-CreatedOwned, get_remaining-IsFunctional,
  record_failure-IsFunctional, reset_attempts-IsFunctional,
}
use bartimaeus_app.Web.History.Ends.{
  Ends, answered, failed, Keeps, if-Ends, else-Ends, require_auth-Keeps,
  require_auth_and_csrf-Keeps,
}

abbrev username_of : Request → Bytes
username_of req = req.get_param_value (bytes "username")

abbrev password_of : Request → Bytes
password_of req = req.get_param_value (bytes "password")

module _ {D : Type 0} (P : Bytes → Bytes → Type 0) (auth_service : AuthService D)
    (board_service : BoardService D) (env : Env) (req : Request) where
  -- The property of the id that createSession would make, for the user of the request.
  abbrev pub IsLetIn : Type 0
  IsLetIn =
      (id_buffer : List ℕ) → env.random 0 ≡ some id_buffer → P (hex id_buffer) (username_of req)

  check_admin-Keeps :
      (handler : Handler D)
      → ((ctx : UserContext) → Keeps P (handler ctx))
      → (ctx : UserContext) → Keeps P (check_admin env req auth_service handler ctx)
  unfolding check_admin
  check_admin-Keeps handler k ctx app res h =
      let h' = with_db P app h (auth_service.get_user_role ctx.username app.db).1 in
      if-Ends P _ _ _ (k ctx _ res h') (answered _ _ h')

  sign_up_reply-Ends :
      (res : Response) (app : App D) (result : Option AuthResult)
      → IsSound P app
      → Ends P (sign_up_reply auth_service env req res app result)
  unfolding sign_up_reply
  sign_up_reply-Ends res app none h = failed _ _ h
  sign_up_reply-Ends res app (some success) h = answered _ _ h
  sign_up_reply-Ends res app (some fail) h = answered _ _ h
  sign_up_reply-Ends res app (some db_error) h = answered _ _ h

  handle_sign_up-Keeps : Keeps P (handle_sign_up auth_service env req)
  unfolding handle_sign_up
  handle_sign_up-Keeps app res h =
      if-Ends P (is_empty (username_of req) || is_empty (password_of req)) _ _ (answered _ _ h) (
        if-Ends P (not (is_valid_username (username_of req))) _ _ (answered _ _ h)
          (sign_up_reply-Ends res _ _ (with_db P app h _)))

  logged_in-Ends :
      (app : App D) (res : Response) (created : Option (Bytes × SessionManager))
      → CreatedOwned P created
      → IsSound P app
      → Ends P (logged_in auth_service env req app res created)
  unfolding logged_in
  logged_in-Ends app res none c h = failed _ _ h
  logged_in-Ends app res (some (session_id, s)) c h = answered _ _ (with_sessions P app h s c)

  login_reply-Ends :
      (app : App D) (res : Response) (result : AuthResult)
      → (result ≡ success → IsLetIn)
      → IsSound P app
      → Ends P (login_reply auth_service env req app res result)
  unfolding login_reply login_success
  login_reply-Ends app res success p h =
      logged_in-Ends _ _ _
        (create_session-CreatedOwned P app.session_manager (username_of req) (env.random 0)
          (env.random 1) (env.clock 3) (p refl) h.sessions)
        (with_attempts P app h _
          (reset_attempts-IsFunctional app.login_limiter (username_of req) h.attempts))
  login_reply-Ends app res fail p h = answered _ _ (
      with_attempts P app h _ (
        record_failure-IsFunctional app.login_limiter (username_of req) (env.clock 1) (env.clock 2)
          h.attempts))
  login_reply-Ends app res db_error p h = answered _ _ h

  handle_login-Keeps :
      (app : App D) (res : Response)
      → (Accepted auth_service env req app → IsLetIn)
      → IsSound P app
      → Ends P (handle_login auth_service env req app res)
  unfolding handle_login
  handle_login-Keeps app res p h =
      let remaining =
        get_remaining_lockout_time app.login_limiter (username_of req) (env.clock 0) in
      let checked =
        with_attempts P app h _ (
          get_remaining-IsFunctional app.login_limiter (username_of req) (env.clock 0)
            h.attempts) in
      if-Ends P (is_empty (username_of req) || is_empty (password_of req)) _ _ (answered _ _ h) (
        else-Ends P (not (is_valid_username (username_of req))) _ _ (answered _ _ h) (λ named.
          else-Ends P (ltb 0 remaining.0) _ _ (answered _ _ checked) (λ unlocked.
            login_reply-Ends _ res _
              (λ e.
                p (record { valid = ground arith; unlocked = ground arith; password_accepted = e }))
              (with_db P _ checked _))))

  handle_create_post-Keeps :
      (ctx : UserContext) → Keeps P (handle_create_post board_service auth_service req ctx)
  unfolding handle_create_post
  handle_create_post-Keeps ctx app res h =
      let title = req.get_param_value (bytes "title") in
      let content = req.get_param_value (bytes "content") in
      let h' = with_db P app h (board_service.write_post title content ctx.username app.db).1 in
      if-Ends P (is_empty title || is_empty content) _ _ (answered _ _ h)
        (if-Ends P _ _ _ (answered _ _ h') (answered _ _ h'))

  show_post-Keeps : (id : ℤ) → Keeps P (show_post board_service auth_service req id)
  unfolding show_post
  show_post-Keeps id app res h =
      let h' = with_db P app h (board_service.get_post_by_id id app.db).1 in
      if-Ends P _ _ _ (answered _ _ h') (answered _ _ h')

  delete_found-Keeps :
      (id : ℤ) (ctx : UserContext) → Keeps P (delete_found board_service auth_service req id ctx)
  unfolding delete_found delete_checked
  delete_found-Keeps id ctx app res h =
      let (post, db) = board_service.get_post_by_id id app.db in
      let (role, db') = auth_service.get_user_role ctx.username db in
      let deleted = board_service.delete_post id ctx.username role db' in
      if-Ends P (is_missing post) _ _ (answered _ _ (with_db P app h db)) (
        if-Ends P (not (is_eq post.author ctx.username) && not (is_eq role (bytes "ADMIN"))) _ _
          (answered _ _ (with_db P app h db'))
          (if-Ends P _ _ _ (answered _ _ (with_db P app h deleted.1))
            (answered _ _ (with_db P app h deleted.1))))

  handle_get_post_detail-Keeps :
      (ctx : UserContext) → Keeps P (handle_get_post_detail board_service auth_service req ctx)
  unfolding handle_get_post_detail
  handle_get_post_detail-Keeps ctx app res h =
      elim (Option-cases (safe_stoi (req.get_param_value (bytes "id")))) [
        | inl e ↦ rw (handle_get_post_detail, e) (answered _ _ h)
        | inr (id, e) ↦ rw (handle_get_post_detail, e) (show_post-Keeps id app res h)
      ]

  handle_delete_post-Keeps :
      (ctx : UserContext) → Keeps P (handle_delete_post board_service auth_service req ctx)
  unfolding handle_delete_post
  handle_delete_post-Keeps ctx app res h =
      elim (Option-cases (safe_stoi (req.get_param_value (bytes "id")))) [
        | inl e ↦ rw (handle_delete_post, e) (answered _ _ h)
        | inr (id, e) ↦ rw (handle_delete_post, e) (delete_found-Keeps id ctx app res h)
      ]

  handle_get_me-Keeps : (ctx : UserContext) → Keeps P (handle_get_me auth_service env req ctx)
  unfolding handle_get_me
  handle_get_me-Keeps ctx app res h = answered _ _ (
      with_sessions P _ (with_db P app h _) _
        (get_csrf_token-AreOwned P app.session_manager ctx.session_id (env.clock 2) h.sessions))

  -- A request to any endpoint; a login needs the property of the user it lets in.
  pub serve-Keeps :
      (e : Endpoint) (app : App D) (res : Response)
      → (e ≡ post_login → Accepted auth_service env req app → IsLetIn)
      → IsSound P app
      → Ends P (serve auth_service board_service env req e app res)
  unfolding serve require_admin handle_get_users handle_logout handle_get_posts
  serve-Keeps post_signup app res p h = handle_sign_up-Keeps app res h
  serve-Keeps post_login app res p h = handle_login-Keeps app res (p refl) h
  serve-Keeps get_users app res p h =
      require_auth-Keeps P env req
        (check_admin env req auth_service (handle_get_users auth_service env req))
        (check_admin-Keeps (handle_get_users auth_service env req)
          (λ ctx app res h. answered _ _ (with_db P app h _)))
        app res h
  serve-Keeps get_me app res p h =
      require_auth-Keeps P env req (handle_get_me auth_service env req) handle_get_me-Keeps app res
        h
  serve-Keeps post_logout app res p h =
      require_auth_and_csrf-Keeps P env req (handle_logout auth_service env req)
        (λ ctx app res h. answered _ _ (
          with_sessions P app h _
            (destroy_session-AreOwned P app.session_manager ctx.session_id h.sessions)))
        app res h
  serve-Keeps create_post app res p h =
      require_auth_and_csrf-Keeps P env req (handle_create_post board_service auth_service req)
        handle_create_post-Keeps app res h
  serve-Keeps get_posts app res p h =
      require_auth-Keeps P env req (handle_get_posts board_service auth_service req)
        (λ ctx app res h. answered _ _ (with_db P app h _)) app res h
  serve-Keeps get_post app res p h =
      require_auth-Keeps P env req (handle_get_post_detail board_service auth_service req)
        handle_get_post_detail-Keeps app res h
  serve-Keeps delete_post app res p h =
      require_auth_and_csrf-Keeps P env req (handle_delete_post board_service auth_service req)
        handle_delete_post-Keeps app res h
