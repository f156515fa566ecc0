-- ===== src/Web/History/Ends.antt =====
-- However a request ends, it keeps the invariant of the two stores: the branches and the middleware of
-- src/middleware.hpp.
use bartimaeus_app.Base.{◌≡◌, refl, Bool, true, false, if◌then◌else◌}
use bartimaeus_app.Base.Bytes.{Bytes, bytes}
use bartimaeus_app.Web.Http.{Request, Response}
use bartimaeus_app.Web.Services.{App, Env, Handled, done, threw, Handler, UserContext}
use bartimaeus_app.Web.Middleware.{session_cookie, require_auth, check_csrf, require_auth_and_csrf}
use bartimaeus_app.Web.History.Sound.{
  IsSound, with_sessions, validate_session-AreOwned, validate_csrf_token-AreOwned,
  destroy_session-AreOwned,
}

module _ {D : Type 0} (P : Bytes → Bytes → Type 0) where
  -- However the handler ends.
  pub data Ends : Handled D → Type 0 where
    answered : (app : App D) (res : Response) → IsSound P app → Ends (done app res)
    failed : (app : App D) (res : Response) → IsSound P app → Ends (threw app res)

  abbrev pub Keeps : (App D → Response → Handled D) → Type 0
  Keeps f = (app : App D) (res : Response) → IsSound P app → Ends (f app res)

  pub if-Ends : (b : Bool) (x y : Handled D) → Ends x → Ends y → Ends (if b then x else y)
  if-Ends true x y hx hy = hx
  if-Ends false x y hx hy = hy

  -- The test that failed is known in the other branch.
  pub else-Ends :
      (b : Bool) (x y : Handled D) → Ends x → (b ≡ false → Ends y) → Ends (if b then x else y)
  else-Ends true x y hx hy = hx
  else-Ends false x y hx hy = hy refl

  module _ (env : Env) (req : Request) where
    pub require_auth-Keeps :
        (handler : Handler D)
        → ((ctx : UserContext) → Keeps (handler ctx))
        → Keeps (require_auth env req handler)
    unfolding require_auth
    require_auth-Keeps handler k app res h =
        let h' = with_sessions P app h _ (
          validate_session-AreOwned P app.session_manager (session_cookie req) (env.clock 0)
            h.sessions) in
        if-Ends _ _ _ (answered _ _ h') (k _ _ res h')

    check_csrf-Keeps :
        (handler : Handler D)
        → ((ctx : UserContext) → Keeps (handler ctx))
        → (ctx : UserContext) → Keeps (check_csrf env req handler ctx)
    unfolding check_csrf
    check_csrf-Keeps handler k ctx app res h =
        let checked =
          validate_csrf_token-AreOwned P app.session_manager ctx.session_id
            (req.get_header_value (bytes "X-CSRF-TOKEN")) (env.clock 1) h.sessions in
        if-Ends _ _ _ (k ctx _ res (with_sessions P app h _ checked)) (
          answered _ _
            (with_sessions P app h _ (destroy_session-AreOwned P _ ctx.session_id checked)))

    pub require_auth_and_csrf-Keeps :
        (handler : Handler D)
        → ((ctx : UserContext) → Keeps (handler ctx))
        → Keeps (require_auth_and_csrf env req handler)
    unfolding require_auth_and_csrf
    require_auth_and_csrf-Keeps handler k =
        require_auth-Keeps (check_csrf env req handler) (check_csrf-Keeps handler k)
