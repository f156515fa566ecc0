-- ===== src/BoardService.antt =====
-- src/services/board_service.hpp. The mutex makes every method one run; the lines that it logs are
-- left out.
pub mod Protocol
pub mod Posts
pub mod Results
use bartimaeus_app.Base.{
  ℕ, Bool, true, false, List, [], ◌∷◌, Option, none, some, ltb, if◌then◌else◌,
}
use bartimaeus_app.Base.Bytes.{Bytes}
use bartimaeus_app.Base.Int.{ℤ, pos}
use bartimaeus_app.DbManager.{Connection}
use bartimaeus_app.Mysql.{Stmt, Value, text, int, Column, int_column, text_column, Mysql}
use bartimaeus_app.Queries.{
  secure_insert_post, select_all_posts, secure_select_post, secure_delete_post,
}
use bartimaeus_app.Database.{
  Db, ◌>>=◌, ◌>>◌, pure, text_at, int_at, read_text, acquire, on_stmt, stmt_store_result,
  stmt_affected_rows, stmt_execute, stmt_bind_result, stmt_fetch, finish, prepare_statement,
  bind_and_execute, fetch_all,
}
use bartimaeus_app.Web.Services.{Post}

-- The five arrays and the int that a post is fetched into.
unfoldable pub post_columns : List Column
post_columns =
    int_column ∷ text_column 256 ∷ text_column 4096 ∷ text_column 256 ∷ text_column 64 ∷ []

-- Post post;
unfoldable pub no_post : Post
no_post = record { id = pos 0; title = []; content = []; author = []; created_at = [] }

-- The four arrays are read as C strings.
unfoldable pub read_post : {S : Type 0} → List Value → Db S Post
read_post row = do
  title ← read_text 256 (text_at 1 row)
  content ← read_text 4096 (text_at 2 row)
  author ← read_text 256 (text_at 3 row)
  created_at ← read_text 64 (text_at 4 row)
  pure (record {
    id = int_at 0 row;
    title = title;
    content = content;
    author = author;
    created_at = created_at;
  })

module _ {S : Type 0} (mysql : Mysql S) where
  insert_post : Connection → List Value → Option Stmt → Db S Bool
  insert_post conn params none = pure false
  insert_post conn params (some stmt) = do
    success ← bind_and_execute mysql stmt params
    finish mysql conn stmt
    pure success

  write_post_on : List Value → Option Connection → Db S Bool
  unfolding insert_post
  write_post_on params none = pure false
  write_post_on params (some conn) = do
    stmt ← prepare_statement mysql conn secure_insert_post
    insert_post conn params stmt

  unfoldable pub write_post : Bytes → Bytes → Bytes → Db S Bool
  unfolding write_post_on
  write_post title content author = do
    conn ← acquire mysql
    write_post_on (text title ∷ text content ∷ text author ∷ []) conn

  -- mysql_stmt_store_result, which is reached only after an execution without an error
  store_if : Stmt → Bool → Db S Bool
  store_if stmt false = pure false
  store_if stmt true = stmt_store_result mysql stmt

  rows_if_bound : Stmt → Bool → Db S (List Post)
  rows_if_bound stmt false = pure []
  rows_if_bound stmt true = fetch_all mysql stmt read_post

  fetch_posts : Connection → Stmt → Bool → Db S (List Post)
  unfolding rows_if_bound
  fetch_posts conn stmt false = do finish mysql conn stmt; pure []
  fetch_posts conn stmt true = do
    bound ← stmt_bind_result mysql stmt post_columns
    posts ← rows_if_bound stmt bound
    finish mysql conn stmt
    pure posts

  select_posts : Connection → Option Stmt → Db S (List Post)
  unfolding fetch_posts store_if
  select_posts conn none = pure []
  select_posts conn (some stmt) = do
    executed ← stmt_execute mysql stmt
    stored ← store_if stmt executed
    fetch_posts conn stmt stored

  get_all_posts_on : Option Connection → Db S (List Post)
  unfolding select_posts
  get_all_posts_on none = pure []
  get_all_posts_on (some conn) = do
    stmt ← prepare_statement mysql conn select_all_posts
    select_posts conn stmt

  unfoldable pub get_all_posts : Db S (List Post)
  unfolding get_all_posts_on
  get_all_posts = do conn ← acquire mysql; get_all_posts_on conn

  post_of_row : Option (List Value) → Db S Post
  post_of_row none = pure no_post
  post_of_row (some row) = read_post row

  row_if_bound : Stmt → Bool → Db S Post
  unfolding post_of_row
  row_if_bound stmt false = pure no_post
  row_if_bound stmt true = do row ← stmt_fetch mysql stmt; post_of_row row

  fetch_post : Connection → Stmt → Bool → Db S Post
  unfolding row_if_bound
  fetch_post conn stmt false = do finish mysql conn stmt; pure no_post
  fetch_post conn stmt true = do
    bound ← stmt_bind_result mysql stmt post_columns
    post ← row_if_bound stmt bound
    finish mysql conn stmt
    pure post

  select_post : Connection → ℤ → Option Stmt → Db S Post
  unfolding fetch_post store_if
  select_post conn id none = pure no_post
  select_post conn id (some stmt) = do
    executed ← bind_and_execute mysql stmt (int id ∷ [])
    stored ← store_if stmt executed
    fetch_post conn stmt stored

  get_post_by_id_on : ℤ → Option Connection → Db S Post
  unfolding select_post
  get_post_by_id_on id none = pure no_post
  get_post_by_id_on id (some conn) = do
    stmt ← prepare_statement mysql conn secure_select_post
    select_post conn id stmt

  unfoldable pub get_post_by_id : ℤ → Db S Post
  unfolding get_post_by_id_on
  get_post_by_id id = do conn ← acquire mysql; get_post_by_id_on id conn

  affected_if : Stmt → Bool → Db S Bool
  affected_if stmt false = pure false
  affected_if stmt true = do rows ← stmt_affected_rows mysql stmt; pure (ltb 0 rows)

  remove_post : Connection → List Value → Option Stmt → Db S Bool
  unfolding affected_if
  remove_post conn params none = pure false
  remove_post conn params (some stmt) = do
    executed ← bind_and_execute mysql stmt params
    success ← affected_if stmt executed
    finish mysql conn stmt
    pure success

  delete_post_on : List Value → Option Connection → Db S Bool
  unfolding remove_post
  delete_post_on params none = pure false
  delete_post_on params (some conn) = do
    stmt ← prepare_statement mysql conn secure_delete_post
    remove_post conn params stmt

  unfoldable pub delete_post : ℤ → Bytes → Bytes → Db S Bool
  unfolding delete_post_on
  delete_post id username role = do
    conn ← acquire mysql
    delete_post_on (int id ∷ text username ∷ text role ∷ []) conn
