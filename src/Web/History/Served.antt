-- ===== src/Web/History/Served.antt =====
-- Whom the endpoints behind the login serve, after any history of the application.
use bartimaeus_app.Base.{
  ℕ, ◌≡◌, ap, ◌⊎◌, inl, inr, Bool, true, false, Bool-cases, List, [], ◌∷◌, Option, none, some,
  Option-cases, if◌then◌else◌, arith, is_empty, not, ◌||◌,
}
use bartimaeus_app.Base.Bytes.{Bytes, bytes, bytes_discrete, is_eq}
use bartimaeus_app.Base.Map.{IsFunctional, find-HoldsOf}
use bartimaeus_app.Session.{Session, SessionManager, validate_session}
use bartimaeus_app.Session.View.{active, live, username_of}
use bartimaeus_app.Web.Http.{Request, Response}
use bartimaeus_app.Web.Services.{AuthService, BoardService, App, Env, Handled, done}
use bartimaeus_app.Web.Middleware.{session_cookie}
use bartimaeus_app.Web.Routes.{
  Endpoint, serve, PreRouting, unhandled, handled, is_page_request, is_public_page, pre_routing,
}
use bartimaeus_app.Web.Access.{
  unauthorized, looked_up, current_user, needs_session, serve-unauthorized,
}
use bartimaeus_app.Web.Granted.{ServesUser, serve-ServesUser}
use bartimaeus_app.Web.History.{
  Event, request, page, sweep, started, app_of, app_before, step, run, Admits, admitted, afterwards,
}
use bartimaeus_app.Web.History.Sound.{
  IsSound, AreOwned, with_db, with_sessions, validate_session-AreOwned,
  cleanup_expired_sessions-AreOwned, cleanup_expired_attempts-IsFunctional,
}
use bartimaeus_app.Web.History.Ends.{Ends, answered, failed}
use bartimaeus_app.Web.History.Requests.{serve-Keeps}

module _ {D : Type 0} (P : Bytes → Bytes → Type 0) (auth_service : AuthService D)
    (board_service : BoardService D) where
  Ends-IsSound : (h : Handled D) → Ends P h → IsSound P (app_of h)
  Ends-IsSound h (answered app res s) = s
  Ends-IsSound h (failed app res s) = s

  data Lets : PreRouting D → Type 0 where
    through : (app : App D) → IsSound P app → Lets (unhandled app)
    answers : (app : App D) (res : Response) → IsSound P app → Lets (handled app res)

  if-Lets : (b : Bool) (x y : PreRouting D) → Lets x → Lets y → Lets (if b then x else y)
  if-Lets true x y hx hy = hx
  if-Lets false x y hx hy = hy

  Lets-IsSound : (h : PreRouting D) → Lets h → IsSound P (app_before h)
  Lets-IsSound h (through app s) = s
  Lets-IsSound h (answers app res s) = s

  -- The look at the session, and at the role for a page of the administrators.
  pre_routing-Lets :
      (env : Env) (req : Request) (app : App D) (res : Response)
      → IsSound P app
      → Lets (pre_routing auth_service env req app res)
  unfolding pre_routing
  pre_routing-Lets env req app res h =
      let seen = validate_session app.session_manager (session_cookie req) (env.clock 0) in
      let h' = with_sessions P app h seen.1 (
        validate_session-AreOwned P app.session_manager (session_cookie req) (env.clock 0)
          h.sessions) in
      elim (Bool-cases (req.has_header (bytes "Cookie"))) [
        | inl e ↦
            rw (pre_routing, e)
              (if-Lets (not (is_page_request req.path) || is_public_page req.path) _ _ (through _ h)
                (if-Lets (is_empty seen.0) _ _ (answers _ _ h') (
                  if-Lets (is_eq req.path (bytes "/")) _ _ (answers _ _ h') (
                    if-Lets (is_eq req.path (bytes "/admin.html")) _ _
                      (if-Lets _ _ _ (through _ (with_db P _ h' _))
                        (answers _ _ (with_db P _ h' _)))
                      (through _ h')))))
        | inr e ↦
            rw (pre_routing, e)
              (if-Lets (not (is_page_request req.path) || is_public_page req.path) _ _ (through _ h)
                (answers _ _ h))
      ]

  pub step-IsSound :
      (event : Event) (app : App D) (events : List Event)
      → ((session_id username : Bytes)
          → Admits auth_service board_service app (event ∷ events) session_id username
          → P session_id username)
      → IsSound P app
      → IsSound P (step auth_service board_service app event)
  unfolding step
  step-IsSound (request env req e res) app events p h = Ends-IsSound _ (
      serve-Keeps P auth_service board_service env req e app res
        (λ login accepted id_buffer made. p _ _ (rw login (admitted accepted made))) h)
  step-IsSound (page env req res) app events p h =
      Lets-IsSound _ (pre_routing-Lets env req app res h)
  step-IsSound (sweep now later) app events p h = record {
    sessions = cleanup_expired_sessions-AreOwned P app.session_manager now h.sessions;
    attempts = cleanup_expired_attempts-IsFunctional app.login_limiter later h.attempts;
  }

  -- The invariant after any history, for a property of every id and user of a login that it lets in.
  pub run-IsSound :
      (app : App D) (events : List Event)
      → ((session_id username : Bytes)
          → Admits auth_service board_service app events session_id username
          → P session_id username)
      → IsSound P app
      → IsSound P (run auth_service board_service app events)
  unfolding run
  run-IsSound app [] p h = h
  run-IsSound app (event ∷ events) p h =
      run-IsSound (step auth_service board_service app event) events
        (λ session_id username a. p session_id username (afterwards a))
        (step-IsSound event app events p h)

live-some : (now : ℕ) (o : Option Session) (it : Session) → live now o ≡ some it → o ≡ some it
live-some now none it h = cc
live-some now (some o) it h = ground arith

-- The owner of the live session, if there is one.
pub owner-cases :
    (P : Bytes → Bytes → Type 0) (s : SessionManager) (k : Bytes) (now : ℕ)
    → AreOwned P s
    → (username_of (active s k now) ≡ []) ⊎ P k (username_of (active s k now))
owner-cases P s k now h = elim (Option-cases (active s k now)) [
  | inl e ↦ inl (ap username_of e)
  | inr (it, e) ↦ inr (
      rw e (
        find-HoldsOf bytes_discrete (λ j o. P j o.username) k it s.sessions h.owned
          (live-some now _ it e)))
]

module _ {D : Type 0} (auth_service : AuthService D) (board_service : BoardService D) (db : D)
    (events : List Event) where
  abbrev pub application : App D
  application = run auth_service board_service (started db) events

  -- After any history of requests and sweeps since the start of the program, a request to an
  -- endpoint behind the login is answered 401, or it is refused for its CSRF token or for not being
  -- an administrator's, or else the endpoint's handler gets the user of the session whose id the
  -- request shows. In all cases but the first, that history let a login of this user in: with a
  -- name of the right form, which was not locked out, and a password that the authentication
  -- accepted; and the id was made for that login. The tables of the sessions and of the failed
  -- logins have each key once.
  pub serve-admitted :
      (env : Env) (req : Request) (e : Endpoint) (res : Response)
      → needs_session e ≡ true
      → ((serve auth_service board_service env req e application res
            ≡ done (looked_up env req application) (unauthorized res))
          ⊎ (ServesUser auth_service board_service env req e application res
                (serve auth_service board_service env req e application res)
              × Admits auth_service board_service
                  (started db)
                  events
                  (session_cookie req)
                  (current_user env req application)))
        × IsFunctional bytes_discrete application.session_manager.sessions
        × IsFunctional bytes_discrete application.login_limiter.attempts
  serve-admitted env req e res n =
      let sound =
        run-IsSound (Admits auth_service board_service (started db) events) auth_service
          board_service (started db) events (λ session_id username a. a)
          (record { sessions = record { functional = tt; owned = tt }; attempts = tt }) in
      (
        elim (owner-cases _ application.session_manager (session_cookie req) (env.clock 0)
            sound.sessions) [
              | inl nobody ↦
                  inl
                    (serve-unauthorized auth_service board_service env req application res e n
                      nobody).0
              | inr owner ↦
                  elim (serve-ServesUser auth_service board_service env req e application res n) [
                    | inl refused ↦ inl refused
                    | inr serves ↦ inr (serves, owner)
                  ]
            ],
        sound.sessions.functional,
        sound.attempts,
      )
