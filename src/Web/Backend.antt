-- ===== src/Web/Backend.antt =====
-- The handlers with the services of src/services/ behind them.
use bartimaeus_app.Base.{ℕ, List, map, Option, none, some}
use bartimaeus_app.Base.Bytes.{Bytes}
use bartimaeus_app.DbManager.{Connection}
use bartimaeus_app.Mysql.{Stmt, Mysql}
use bartimaeus_app.Helpers.Password.{Argon2}
use bartimaeus_app.Database.{World, idle, prepared, parsed, placeholders}
use bartimaeus_app.Queries.{secure_insert_user}
use bartimaeus_app.Database.Protocol.{At}
use bartimaeus_app.Database.Rows.{IsRoomy}
use bartimaeus_app.AuthService as Auth
use bartimaeus_app.AuthService.{User}
use bartimaeus_app.AuthService.Leaves.{sign_up-Leaves, Leaves}
use bartimaeus_app.AuthService.Protocol.{login-Moves, get_user_role-Moves, get_all_users-Moves}
use bartimaeus_app.BoardService as Board
use bartimaeus_app.BoardService.Protocol.{
  write_post-Moves, delete_post-Moves, get_all_posts-Moves, get_post_by_id-Moves,
}
use bartimaeus_app.Web.Http.{Request, Response}
use bartimaeus_app.Web.Services.{AuthService, BoardService, AuthResult, App, Env}
use bartimaeus_app.Web.Routes.{Endpoint, serve}
use bartimaeus_app.Web.Conservation.{SignedUp, Keeps, Ends, serve-Kept}

-- The services of src/services/, as the controllers see them.
module _ {S : Type 0} (mysql : Mysql S) (argon2 : Argon2) (salt : S → List ℕ × S) where
  -- The names of the users, which is all that the handler reads of them.
  abbrev names_of : List User × World S → List Bytes × World S
  names_of (users, w) = (map (λ (u : User). u.username) users, w)

  abbrev pub auth_backend : AuthService (World S)
  auth_backend = record {
    sign_up = Auth.sign_up mysql argon2 salt;
    login = Auth.login mysql argon2 salt;
    get_user_role = Auth.get_user_role mysql;
    get_all_users = λ w. names_of (Auth.get_all_users mysql w);
  }

  abbrev pub board_backend : BoardService (World S)
  board_backend = record {
    write_post = Board.write_post mysql;
    get_all_posts = Board.get_all_posts mysql;
    get_post_by_id = Board.get_post_by_id mysql;
    delete_post = Board.delete_post mysql;
  }

  -- Left behind by an exception of the password hash.
  abbrev pub IsLeaked : World S → Type 0
  IsLeaked w =
      (c : Connection) × (st : Stmt) × At (prepared c st (parsed (placeholders secure_insert_user)))
        w

  signed_up :
      (result : Option AuthResult) (w : World S)
      → Leaves mysql argon2 salt result w
      → SignedUp (At idle) IsLeaked result w
  signed_up none w h = h
  signed_up (some result) w h = h

  backend-Keeps : IsRoomy mysql → Keeps (At idle) IsLeaked auth_backend board_backend
  backend-Keeps roomy = record {
    sign_up = λ username password w h.
        signed_up _ _ (sign_up-Leaves mysql argon2 salt username password w h);
    login = λ username password. login-Moves mysql argon2 salt username password roomy;
    get_user_role = get_user_role-Moves mysql;
    get_all_users = get_all_users-Moves mysql roomy;
    write_post = write_post-Moves mysql;
    get_all_posts = get_all_posts-Moves mysql roomy;
    get_post_by_id = get_post_by_id-Moves mysql roomy;
    delete_post = delete_post-Moves mysql;
  }

  -- When the library delivers no row that fills one of the services' arrays, and a request starts
  -- with no statement open, all connections in the pool and at most five of them, then its handler,
  -- with the services of src/services/, uses only what is open, whatever the library answers and
  -- whichever endpoint it is: each statement is made, prepared, given as many parameters as its
  -- text has question marks, executed and read in that order. After its preparation, its
  -- parameters, its execution or the binding of its arrays failed it is only closed, and after
  -- mysql_stmt_store_result failed it is only counted, fetched from or closed. The handler ends with
  -- nothing open again; an exception ends it so too, or with the statement of the insertion open and
  -- its connection out of the pool.
  pub serve-backend :
      IsRoomy mysql
      → (env : Env) (req : Request) (e : Endpoint) (app : App (World S)) (res : Response)
      → At idle app.db
      → Ends (At idle) IsLeaked (serve auth_backend board_backend env req e app res)
  serve-backend roomy env req =
      serve-Kept (At idle) IsLeaked auth_backend board_backend (backend-Keeps roomy) env req
