-- ===== src/AuthService.antt =====
-- src/services/auth_service.hpp. The mutex makes every method one run; the lines that it logs are
-- left out. `salt` delivers the random bytes for a password hash.
pub mod Protocol
pub mod Leaves
pub mod Login
pub mod SignUp
pub mod RoundTrip
use bartimaeus_app.Base.{
  ℕ, Bool, true, false, List, [], ◌∷◌, map, Option, none, some, ltb, if◌then◌else◌,
}
use bartimaeus_app.Base.Bytes.{Bytes, bytes}
use bartimaeus_app.DbManager.{Connection}
use bartimaeus_app.Helpers.Password.{Argon2, hash_password_argon2id, verify_password_argon2id}
use bartimaeus_app.Mysql.{Stmt, Value, text, text_column, Mysql}
use bartimaeus_app.Queries.{
  secure_check_user, secure_insert_user, secure_select_user, secure_select_user_role,
  secure_select_all_users,
}
use bartimaeus_app.Database.{
  World, Db, ◌>>=◌, ◌>>◌, pure, text_at, read_text, acquire, stmt_close, stmt_store_result,
  stmt_num_rows, stmt_execute, stmt_bind_result, stmt_fetch, finish, prepare_statement,
  bind_and_execute, fetch_all,
}
use bartimaeus_app.Web.Services.{AuthResult, success, fail, db_error}

pub record User : Type 0 where
  pub username : Bytes
  pub password : Bytes
  pub role : Bytes

module _ {S : Type 0} (mysql : Mysql S) (argon2 : Argon2) (salt : S → List ℕ × S) where
  -- hashPasswordArgon2id(password)
  hash_password : Bytes → Db S (Option Bytes)
  hash_password password w =
      let (random, s) = salt w.library in
      (hash_password_argon2id argon2 random password, record w { library = s })

  insert_result : Bool → AuthResult
  insert_result ok = if ok then success else db_error

  -- The insertion, after the hash. An exception of the hash leaves the method at once.
  insert_hashed : Connection → Stmt → Bytes → Option Bytes → Db S (Option AuthResult)
  unfolding insert_result
  insert_hashed conn insert_stmt username none = pure none
  insert_hashed conn insert_stmt username (some hashed_password) = do
    ok ← bind_and_execute mysql insert_stmt (text username ∷ text hashed_password ∷ [])
    finish mysql conn insert_stmt
    pure (some (insert_result ok))

  insert_user : Connection → Bytes → Bytes → Option Stmt → Db S (Option AuthResult)
  unfolding hash_password insert_hashed
  insert_user conn username password none = pure (some db_error)
  insert_user conn username password (some insert_stmt) = do
    hashed_password ← hash_password password
    insert_hashed conn insert_stmt username hashed_password

  -- `is_duplicate`: the check found a row.
  unless_duplicate : Connection → Stmt → Bytes → Bytes → Bool → Db S (Option AuthResult)
  unfolding insert_user
  unless_duplicate conn check_stmt username password true = do
    finish mysql conn check_stmt
    pure (some fail)
  unless_duplicate conn check_stmt username password false = do
    stmt_close mysql check_stmt
    insert_stmt ← prepare_statement mysql conn secure_insert_user
    insert_user conn username password insert_stmt

  after_check : Connection → Stmt → Bytes → Bytes → Bool → Db S (Option AuthResult)
  unfolding unless_duplicate
  after_check conn check_stmt username password false = do
    finish mysql conn check_stmt
    pure (some db_error)
  after_check conn check_stmt username password true = do
    stored ← stmt_store_result mysql check_stmt
    rows ← stmt_num_rows mysql check_stmt
    unless_duplicate conn check_stmt username password (ltb 0 rows)

  check_user : Connection → Bytes → Bytes → Option Stmt → Db S (Option AuthResult)
  unfolding after_check
  check_user conn username password none = pure (some db_error)
  check_user conn username password (some check_stmt) = do
    checked ← bind_and_execute mysql check_stmt (text username ∷ [])
    after_check conn check_stmt username password checked

  sign_up_on : Bytes → Bytes → Option Connection → Db S (Option AuthResult)
  unfolding check_user
  sign_up_on username password none = pure (some db_error)
  sign_up_on username password (some conn) = do
    check_stmt ← prepare_statement mysql conn secure_check_user
    check_user conn username password check_stmt

  -- signUp; `none` is the exception of the hash.
  unfoldable pub sign_up : Bytes → Bytes → Db S (Option AuthResult)
  unfolding sign_up_on
  sign_up username password = do conn ← acquire mysql; sign_up_on username password conn

  -- The first column is an array of 255 chars that is read as a C string.
  verified : Connection → Stmt → Bytes → Option (List Value) → Db S AuthResult
  verified conn stmt password none = do finish mysql conn stmt; pure fail
  verified conn stmt password (some row) = do
    db_password_hash ← read_text 255 (text_at 0 row)
    finish mysql conn stmt
    pure (if verify_password_argon2id argon2 password db_password_hash then success else fail)

  fetch_hash : Connection → Stmt → Bytes → Bool → Db S AuthResult
  unfolding verified
  fetch_hash conn stmt password false = do finish mysql conn stmt; pure db_error
  fetch_hash conn stmt password true = do
    row ← stmt_fetch mysql stmt
    verified conn stmt password row

  bind_hash : Connection → Stmt → Bytes → Bool → Db S AuthResult
  unfolding fetch_hash
  bind_hash conn stmt password false = do finish mysql conn stmt; pure db_error
  bind_hash conn stmt password true = do
    bound ← stmt_bind_result mysql stmt (text_column 255 ∷ text_column 50 ∷ [])
    fetch_hash conn stmt password bound

  select_user : Connection → Bytes → Bytes → Option Stmt → Db S AuthResult
  unfolding bind_hash
  select_user conn username password none = pure db_error
  select_user conn username password (some stmt) = do
    executed ← bind_and_execute mysql stmt (text username ∷ [])
    bind_hash conn stmt password executed

  login_on : Bytes → Bytes → Option Connection → Db S AuthResult
  unfolding select_user
  login_on username password none = pure db_error
  login_on username password (some conn) = do
    stmt ← prepare_statement mysql conn secure_select_user
    select_user conn username password stmt

  unfoldable pub login : Bytes → Bytes → Db S AuthResult
  unfolding login_on
  login username password = do conn ← acquire mysql; login_on username password conn

abbrev user_role : Bytes
user_role = bytes "USER"

-- std::string(db_role, role_len)
role_of_row : Option (List Value) → Bytes
role_of_row none = user_role
role_of_row (some row) = text_at 0 row

-- The two std::strings take the lengths that the library wrote; the password stays empty.
unfoldable pub user_of_row : {S : Type 0} → List Value → Db S User
user_of_row row = pure (record { username = text_at 0 row; password = []; role = text_at 1 row })

module _ {S : Type 0} (mysql : Mysql S) where
  fetch_role : Connection → Stmt → Bool → Db S Bytes
  unfolding role_of_row
  fetch_role conn stmt false = do finish mysql conn stmt; pure user_role
  fetch_role conn stmt true = do
    row ← stmt_fetch mysql stmt
    finish mysql conn stmt
    pure (role_of_row row)

  bind_role : Connection → Stmt → Bool → Db S Bytes
  unfolding fetch_role
  bind_role conn stmt false = do finish mysql conn stmt; pure user_role
  bind_role conn stmt true = do
    bound ← stmt_bind_result mysql stmt (text_column 50 ∷ [])
    fetch_role conn stmt bound

  select_role : Connection → Bytes → Option Stmt → Db S Bytes
  unfolding bind_role
  select_role conn username none = pure user_role
  select_role conn username (some stmt) = do
    executed ← bind_and_execute mysql stmt (text username ∷ [])
    bind_role conn stmt executed

  get_user_role_on : Bytes → Option Connection → Db S Bytes
  unfolding select_role
  get_user_role_on username none = pure user_role
  get_user_role_on username (some conn) = do
    stmt ← prepare_statement mysql conn secure_select_user_role
    select_role conn username stmt

  unfoldable pub get_user_role : Bytes → Db S Bytes
  unfolding get_user_role_on
  get_user_role username = do conn ← acquire mysql; get_user_role_on username conn

  fetch_users : Connection → Stmt → Bool → Db S (List User)
  unfolding user_of_row
  fetch_users conn stmt false = do finish mysql conn stmt; pure []
  fetch_users conn stmt true = do
    stored ← stmt_store_result mysql stmt
    users ← fetch_all mysql stmt user_of_row
    finish mysql conn stmt
    pure users

  bind_users : Connection → Stmt → Bool → Db S (List User)
  unfolding fetch_users
  bind_users conn stmt false = do finish mysql conn stmt; pure []
  bind_users conn stmt true = do
    bound ← stmt_bind_result mysql stmt (text_column 255 ∷ text_column 50 ∷ [])
    fetch_users conn stmt bound

  select_users : Connection → Option Stmt → Db S (List User)
  unfolding bind_users
  select_users conn none = pure []
  select_users conn (some stmt) = do
    executed ← stmt_execute mysql stmt
    bind_users conn stmt executed

  get_all_users_on : Option Connection → Db S (List User)
  unfolding select_users
  get_all_users_on none = pure []
  get_all_users_on (some conn) = do
    stmt ← prepare_statement mysql conn secure_select_all_users
    select_users conn stmt

  unfoldable pub get_all_users : Db S (List User)
  unfolding get_all_users_on
  get_all_users = do conn ← acquire mysql; get_all_users_on conn
