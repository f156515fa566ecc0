-- ===== src/Web/Pages.antt =====
-- Which pages the handler before the routing lets through.
use bartimaeus_app.Base.{
  ◌≡◌, refl, ◌≢◌, true, false, [], ◌∷◌, is_empty, Bool-cases, inl, inr, ℕ_discrete,
}
use bartimaeus_app.Base.Bytes.{Bytes, bytes, bytes_discrete, is_eq, is_eq_iff}
use bartimaeus_app.Session.View.{validate_session_lem}
use bartimaeus_app.Web.Http.{Request, Response}
use bartimaeus_app.Web.Services.{AuthService, App, Env}
use bartimaeus_app.Web.Middleware.{session_cookie}
use bartimaeus_app.Web.Routes.{is_page_request, is_public_page, unhandled, pre_routing}
use bartimaeus_app.Web.Access.{current_user}

not_empty : (s : Bytes) → is_empty s ≡ false → s ≢ []
not_empty [] h = cc
not_empty (c ∷ s) h = λ e. cc

admin_not_root : is_eq (bytes "/admin.html") (bytes "/") ≡ false
unfolding bytes bytes_discrete ℕ_discrete
admin_not_root = refl

path_is :
    (path other : Bytes)
    → path ≡ bytes "/admin.html"
    → is_eq (bytes "/admin.html") other ≡ false
    → is_eq path other ≡ false
path_is path other e n = rw e n

path_is_admin :
    (path : Bytes) → path ≡ bytes "/admin.html" → is_eq path (bytes "/admin.html") ≡ true
path_is_admin path e = (is_eq_iff path (bytes "/admin.html")).1 e

module _ {D : Type 0} (auth_service : AuthService D) (env : Env) (req : Request) (app app' : App D)
    (res : Response) where
  -- When a page that is not public is let through, the request had a cookie that names a live
  -- session of a user, and for the administrator's page the database gave that user the role
  -- ADMIN.
  pub pre_routing-unhandled :
      is_page_request req.path ≡ true
      → is_public_page req.path ≡ false
      → pre_routing auth_service env req app res ≡ unhandled app'
      → (req.has_header (bytes "Cookie") ≡ true)
        × (current_user env req app ≢ [])
        × (req.path ≡ bytes "/admin.html"
            → (auth_service.get_user_role (current_user env req app) app.db).0 ≡ bytes "ADMIN")
  unfolding pre_routing
  pre_routing-unhandled page private h =
      let seen = (validate_session_lem app.session_manager (session_cookie req) (env.clock 0)).0 in
      elim (Bool-cases (req.has_header (bytes "Cookie"))) [
        | inr e ↦ let clash = rw (page, private, e) at h in cc
        | inl e ↦ elim (Bool-cases (is_empty (current_user env req app))) [
          | inl m ↦ let clash = rw (page, private, e, seen, m) at h in cc
          | inr m ↦ (
            e,
            not_empty _ m,
            λ admin.
                elim (Bool-cases (
                  is_eq (auth_service.get_user_role (current_user env req app) app.db).0
                    (bytes "ADMIN"))) [
                      | inl yes_admin ↦ (is_eq_iff _ (bytes "ADMIN")).0 yes_admin
                      | inr no_admin ↦
                          let clash =
                            rw
                              (
                                page,
                                private,
                                e,
                                seen,
                                m,
                                path_is req.path (bytes "/") admin admin_not_root,
                                path_is_admin req.path admin,
                                no_admin,
                              )
                              at h in
                          cc
                    ],
          )
        ]
      ]
