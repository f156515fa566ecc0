-- ===== src/Web/Rights.antt =====
-- What the roles and the authorship of a post decide in the two controllers.
use bartimaeus_app.Base.{◌≡◌, refl, ◌≢◌, false, some, if◌then◌else◌, inl, inr, Bool-cases}
use bartimaeus_app.Base.Bytes.{Bytes, bytes, is_eq, is_eq_iff}
use bartimaeus_app.Base.Int.{ℤ}
use bartimaeus_app.Helpers.Number.{safe_stoi}
use bartimaeus_app.Web.Http.{Request, Response, reply}
use bartimaeus_app.Web.Services.{AuthService, BoardService, App, done, UserContext, Post}
use bartimaeus_app.Web.BoardController.{handle_delete_post, is_missing}

not_eq : (s t : Bytes) → s ≢ t → is_eq s t ≡ false
not_eq s t n = elim (Bool-cases (is_eq s t)) [
  | inl e ↦ absurd (n ((is_eq_iff s t).0 e))
  | inr e ↦ e
]

module _ {D : Type 0} (board_service : BoardService D) (auth_service : AuthService D)
    (req : Request) (ctx : UserContext) (app : App D) (res : Response) (id : ℤ) where
  -- The two reads of the handler: the post, then the user's role.
  abbrev pub found : Post × D
  found = board_service.get_post_by_id id app.db

  abbrev pub role_of : Bytes × D
  role_of = auth_service.get_user_role ctx.username found.1

  -- When the id of the request is an int, and the user is neither the author of the post that is
  -- read nor an administrator, the post is not deleted: the handler answers 404 when there is no
  -- post with the id and 403 when there is one, the only database calls are the two reads, and
  -- sessions and limiter stay.
  handle_delete_post-refused :
      safe_stoi (req.get_param_value (bytes "id")) ≡ some id
      → found.0.author ≢ ctx.username
      → role_of.0 ≢ bytes "ADMIN"
      → handle_delete_post board_service auth_service req ctx app res ≡ (
          if is_missing found.0
          then done
              (record app { db = found.1 })
              (reply 404 (bytes "{\"status\":\"error\", \"message\":\"Post not found\"}") res)
          else done
              (record app { db = role_of.1 })
              (reply 403
                (bytes
                  "{\"status\":\"error\", \"message\":\"You are not authorized to delete this post\"}")
                res))
  unfolding handle_delete_post
  handle_delete_post-refused e n m =
      rw
        (
          handle_delete_post,
          e,
          not_eq found.0.author ctx.username n,
          not_eq role_of.0 (bytes "ADMIN") m,
        )
        refl
