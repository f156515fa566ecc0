-- ===== src/Web/BoardController.antt =====
-- src/controllers/board_controller.hpp. The lines that it logs to std::cout are left out.
use bartimaeus_app.Base.{
  Bool, false, not, ◌&&◌, ◌||◌, ◌++◌, map, none, some, ◌==◌, if◌then◌else◌, is_empty,
}
use bartimaeus_app.Base.Bytes.{Bytes, bytes, is_eq}
use bartimaeus_app.Base.Int.{ℤ, pos, negsuc}
use bartimaeus_app.Helpers.Json.{escape_json}
use bartimaeus_app.Helpers.Html.{html_escape}
use bartimaeus_app.Helpers.Number.{safe_stoi, to_string}
use bartimaeus_app.Web.Http.{Request, Response, json_array, reply}
use bartimaeus_app.Web.Services.{
  AuthService, BoardService, Post, App, Handled, done, UserContext, Handler,
}

-- A text of a user, as it stands in an answer.
unfoldable pub shown : Bytes → Bytes
shown text = escape_json (html_escape text)

unfoldable pub post_json : Post → Bytes
unfolding shown
post_json post =
    bytes "{\"id\":"
    ++ (to_string post.id
        ++ (bytes ", \"title\":\""
            ++ (shown post.title
                ++ (bytes "\", \"content\":\""
                    ++ (shown post.content
                        ++ (bytes "\", \"author\":\"" ++ (shown post.author ++ bytes "\"}")))))))

-- post.id == 0
abbrev pub is_missing : Post → Bool
is_missing post = elim post.id [ pos n ↦ n == 0 | negsuc n ↦ false ]

module _ {D : Type 0} (board_service : BoardService D) (auth_service : AuthService D)
    (req : Request) where
  abbrev title_param : Bytes
  title_param = req.get_param_value (bytes "title")

  abbrev content_param : Bytes
  content_param = req.get_param_value (bytes "content")

  abbrev id_param : Bytes
  id_param = req.get_param_value (bytes "id")

  unfoldable pub handle_create_post : Handler D
  handle_create_post ctx app res =
      if is_empty title_param || is_empty content_param
      then done app (
          reply 400
            (bytes "{\"status\":\"error\", \"message\":\"Title and content cannot be empty\"}") res)
      else (let (written, db) =
            board_service.write_post title_param content_param ctx.username app.db in
          let app' = record app { db = db } in
          if written
          then done app' (
              reply 201
                (bytes "{\"status\":\"success\", \"message\":\"Post created successfully\"}") res)
          else done app' (
              reply 500 (bytes "{\"status\":\"error\", \"message\":\"Failed to create post\"}")
                res))

  unfoldable pub handle_get_posts : Handler D
  unfolding post_json
  handle_get_posts ctx app res =
      let (posts, db) = board_service.get_all_posts app.db in
      done (record app { db = db }) (reply 200 (json_array (map post_json posts)) res)

  abbrev invalid_id : App D → Response → Handled D
  invalid_id app res =
      done app (reply 400 (bytes "{\"status\":\"error\", \"message\":\"Invalid post ID\"}") res)

  abbrev not_found : App D → Response → Handled D
  not_found app res =
      done app (reply 404 (bytes "{\"status\":\"error\", \"message\":\"Post not found\"}") res)

  unfoldable pub show_post : ℤ → App D → Response → Handled D
  unfolding post_json
  show_post id app res =
      let (post, db) = board_service.get_post_by_id id app.db in
      let app' = record app { db = db } in
      if is_missing post then not_found app' res else done app' (reply 200 (post_json post) res)

  unfoldable pub handle_get_post_detail : Handler D
  unfolding show_post
  handle_get_post_detail ctx app res = elim (safe_stoi id_param) [
    | none ↦ invalid_id app res
    | some id ↦ show_post id app res
  ]

  -- The service's own check of author and role, and its answer.
  unfoldable pub delete_checked : ℤ → Bytes → UserContext → App D → Response → Handled D
  delete_checked id role ctx app res =
      let (deleted, db) = board_service.delete_post id ctx.username role app.db in
      let app' = record app { db = db } in
      if deleted
      then done app' (
          reply 200 (bytes "{\"status\":\"success\", \"message\":\"Post deleted successfully\"}")
            res)
      else done app'
          (reply 500 (bytes "{\"status\":\"error\", \"message\":\"Failed to delete post\"}") res)

  -- From the look at the post on
  unfoldable pub delete_found : ℤ → UserContext → App D → Response → Handled D
  unfolding delete_checked
  delete_found id ctx app res =
      let (post, db) = board_service.get_post_by_id id app.db in
      let (role, db') = auth_service.get_user_role ctx.username db in
      let app' = record app { db = db' } in
      if is_missing post
      then not_found (record app { db = db }) res
      else if not (is_eq post.author ctx.username) && not (is_eq role (bytes "ADMIN"))
      then done app' (
          reply 403
            (bytes
              "{\"status\":\"error\", \"message\":\"You are not authorized to delete this post\"}")
            res)
      else delete_checked id role ctx app' res

  unfoldable pub handle_delete_post : Handler D
  unfolding delete_found
  handle_delete_post ctx app res = elim (safe_stoi id_param) [
    | none ↦ invalid_id app res
    | some id ↦ delete_found id ctx app res
  ]
