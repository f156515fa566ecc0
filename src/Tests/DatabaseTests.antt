-- ===== src/Tests/DatabaseTests.antt =====
-- The theorems on the two services, over a database whose statements have one row.
use bartimaeus_app.Base.{
  ℕ, zero, suc, ◌≡◌, refl, ◌⊎◌, ◌<◌, true, false, List, [], ◌∷◌, Option, none, some, arith,
}
use bartimaeus_app.Base.Bytes.{Bytes, bytes}
use bartimaeus_app.Base.Int.{pos}
use bartimaeus_app.DbManager.{get_connection}
use bartimaeus_app.Helpers.Password.{Argon2, hash_password_argon2id}
use bartimaeus_app.Helpers.Search.{index_of}
use bartimaeus_app.Mysql.{Value, text, int, Mysql, IsCursor}
use bartimaeus_app.Queries.{secure_delete_post}
use bartimaeus_app.Database.{
  World, idle, acquire, prepare_statement, bind_and_execute, c_string, text_at,
}
use bartimaeus_app.Database.Protocol.{At}
use bartimaeus_app.Database.Rows.{RowFits, IsRoomy}
use bartimaeus_app.AuthService as Auth
use bartimaeus_app.AuthService.SignUp.{IsRegistered, sign_up-success}
use bartimaeus_app.BoardService as Board
use bartimaeus_app.BoardService.Posts.{ArePosts, Fails, get_all_posts-ArePosts}
use bartimaeus_app.BoardService.Results.{IsEffective, delete_post-true}
use bartimaeus_app.Web.Http.{Request, Response}
use bartimaeus_app.Web.Services.{success, App, Env}
use bartimaeus_app.Web.Routes.{post_signup, serve}
use bartimaeus_app.Web.Conservation.{Ends}
use bartimaeus_app.Web.Backend.{auth_backend, board_backend, IsLeaked, serve-backend}

abbrev row : List Value
row = text (bytes "h") ∷ text (bytes "USER") ∷ []

abbrev fetch : ℕ → Option (List Value) × ℕ
fetch zero = (none, 0)
fetch (suc n) = (some row, n)

-- The state is the number of rows that are left.
abbrev pub table : Mysql ℕ
table = record {
  ping = λ c s. (true, s);
  connect = λ s. (none, s);
  close = λ c s. s;
  stmt_init = λ c s. (some 7, s);
  stmt_prepare = λ st query s. (true, s);
  stmt_bind_param = λ st params s. (true, s);
  stmt_execute = λ st s. (true, 1);
  stmt_store_result = λ st s. (true, s);
  stmt_num_rows = λ st s. 0;
  stmt_affected_rows = λ st s. 1;
  stmt_bind_result = λ st columns s. (true, s);
  stmt_fetch = λ st s. fetch s;
  stmt_close = λ st s. s;
  rows_left = λ st s. s;
}

abbrev pub argon2 : Argon2
argon2 = record {
  encoded_length = λ t m p salt hash. 2;
  hash_encoded = λ t m p password salt hash n. some (b'h' ∷ 0 ∷ []);
  verify = λ encoded password. true;
}

abbrev pub salt : ℕ → List ℕ × ℕ
salt s = (1 ∷ 2 ∷ [], s)

abbrev pub ready : World ℕ
ready = record {
  library = 0;
  manager = record { connection_pool = 3 ∷ []; cur_conns = 1 };
  phase = idle;
}

ready-At : At idle ready
ready-At = record { phase = refl; conserved = refl; bounded = omega arith }

row-RowFits : RowFits row
unfolding bytes c_string text_at
row-RowFits = record {
  first = omega arith;
  second = omega arith;
  third = omega arith;
  fourth = omega arith;
  fifth = omega arith;
}

fetch-RowFits : (s : ℕ) (r : List Value) → (fetch s).0 ≡ some r → RowFits r
fetch-RowFits zero r e = cc
fetch-RowFits (suc n) r e = let same : row ≡ r = cc in rw (← same) row-RowFits

table-IsRoomy : IsRoomy table
table-IsRoomy = record { fits = λ st s r e. fetch-RowFits s r e }

fetch-takes : (s : ℕ) (r : List Value) → (fetch s).0 ≡ some r → (fetch s).1 < s
fetch-takes zero r e = cc
fetch-takes (suc n) r e = omega arith

table-IsCursor : IsCursor table
table-IsCursor = record { fetch_takes = λ st s r e. fetch-takes s r e }

abbrev alice : Bytes
alice = bytes "alice"

sign_up_works : (Auth.sign_up table argon2 salt alice alice ready).0 ≡ some success
unfolding Auth.sign_up acquire get_connection prepare_statement bind_and_execute
    hash_password_argon2id index_of
sign_up_works = refl

sign_up-success_example : IsRegistered table argon2 salt alice alice ready
sign_up-success_example = sign_up-success table argon2 salt alice alice ready sign_up_works

delete_post_works : (Board.delete_post table (pos 3) alice alice ready).0 ≡ true
unfolding Board.delete_post acquire get_connection prepare_statement bind_and_execute
delete_post_works = refl

delete_post-true_example :
    IsEffective table secure_delete_post (int (pos 3) ∷ text alice ∷ text alice ∷ []) ready
delete_post-true_example = delete_post-true table (pos 3) alice alice ready delete_post_works

get_all_posts-ArePosts_example :
    (((Board.get_all_posts table ready).0 ≡ []) × Fails table ready)
    ⊎ ArePosts table ready (Board.get_all_posts table ready).0
get_all_posts-ArePosts_example = get_all_posts-ArePosts table table-IsCursor ready

abbrev env : Env
env = record { clock = λ n. n; random = λ n. some (n ∷ 7 ∷ []) }

abbrev request : Request
request = record {
  method = bytes "POST";
  path = bytes "/signup";
  has_header = λ n. false;
  get_header_value = λ n. [];
  get_param_value = λ n. alice;
}

abbrev response : Response
response = record { status = none; headers = []; body = []; content_type = [] }

abbrev app : App (World ℕ)
app = record {
  session_manager = record { sessions = [] };
  login_limiter = record { attempts = [] };
  db = ready;
}

serve-backend_example : Ends (At idle) (IsLeaked table argon2 salt) (
    serve
      (auth_backend table argon2 salt)
      (board_backend table argon2 salt)
      env
      request
      post_signup
      app
      response)
serve-backend_example =
    serve-backend table argon2 salt table-IsRoomy env request post_signup app response ready-At
