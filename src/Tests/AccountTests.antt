-- ===== src/Tests/AccountTests.antt =====
-- The theorem on a sign-up and its login, on a server with a table of users, and with a hash that
-- keeps the password as it is.
use bartimaeus_app.Base.{
  ℕ, ◌≡◌, refl, ap, ◌∙◌, ◌⊎◌, true, false, List, [], ◌∷◌, ◌++◌, Option, none, some, arith, length,
  if◌then◌else◌, ℕ_discrete,
}
use bartimaeus_app.Base.Bytes.{Bytes, bytes, bytes_discrete, is_eq, is_eq_iff}
use bartimaeus_app.Base.Map.{Map, find, insert, find-insert}
use bartimaeus_app.Helpers.Password.{Argon2, hash_password_argon2id, verify_password_argon2id}
use bartimaeus_app.Mysql.{Value, text, Mysql}
use bartimaeus_app.DbManager.{get_connection, release_connection}
use bartimaeus_app.Helpers.Search.{index_of}
use bartimaeus_app.Queries.{secure_check_user, secure_insert_user, secure_select_user}
use bartimaeus_app.Database.{
  acquire, prepare_statement, bind_and_execute, World, idle, read_text, c_string, text_at,
}
use bartimaeus_app.AuthService as Auth
use bartimaeus_app.AuthService.RoundTrip.{sign_up-login}
use bartimaeus_app.AuthService.RoundTrip.Hash.{IsHash}
use bartimaeus_app.AuthService.RoundTrip.Stored.{IsUserTable}
use bartimaeus_app.Web.Services.{success, db_error}

record Server : Type 0 where
  users : Map Bytes Bytes
  query : Bytes
  params : List Value
  rows : List (List Value)

insert_row : List Value → Map Bytes Bytes → Map Bytes Bytes
insert_row (text username ∷ text hashed ∷ []) users = insert bytes_discrete username hashed users
insert_row _ users = users

row_of : Option Bytes → List (List Value)
row_of none = []
row_of (some hashed) = (text hashed ∷ text (bytes "USER") ∷ []) ∷ []

rows_for : List Value → Map Bytes Bytes → List (List Value)
unfolding row_of
rows_for (text username ∷ []) users = row_of (find bytes_discrete username users)
rows_for _ users = []

run : Server → Server
unfolding insert_row rows_for
run s =
    if is_eq s.query secure_insert_user
    then record s { users = insert_row s.params s.users; rows = [] }
    else record s { rows = rows_for s.params s.users }

next : List (List Value) → Option (List Value)
next [] = none
next (row ∷ rows) = some row

abbrev server : Mysql Server
server = record {
  ping = λ c s. (true, s);
  connect = λ s. (none, s);
  close = λ c s. s;
  stmt_init = λ c s. (some 7, s);
  stmt_prepare = λ st query s. (true, record s { query = query });
  stmt_bind_param = λ st params s. (true, record s { params = params });
  stmt_execute = λ st s. (true, run s);
  stmt_store_result = λ st s. (true, s);
  stmt_num_rows = λ st s. length s.rows;
  stmt_affected_rows = λ st s. 1;
  stmt_bind_result = λ st columns s. (true, s);
  stmt_fetch = λ st s. (next s.rows, record s { rows = [] });
  stmt_close = λ st s. s;
  rows_left = λ st s. length s.rows;
}

abbrev salt : Server → List ℕ × Server
salt s = (1 ∷ 2 ∷ [], s)

abbrev argon2 : Argon2
argon2 = record {
  encoded_length = λ t m p salt hash. 2;
  hash_encoded = λ t m p password salt hash n. some (password ++ 0 ∷ []);
  verify = λ encoded password. is_eq (c_string encoded) (c_string password);
}

c_string-c_string : (s : Bytes) → c_string (c_string s) ≡ c_string s
unfolding c_string
c_string-c_string [] = refl
c_string-c_string (c ∷ s) = ground (arith, c_string-c_string s)

c_string-ended : (s : Bytes) → c_string (s ++ 0 ∷ []) ≡ c_string s
unfolding c_string
c_string-ended [] = refl
c_string-ended (c ∷ s) = ground (arith, c_string-ended s)

argon2-IsHash : IsHash argon2
argon2-IsHash = record {
  verifies = λ password encoded salt n e.
      let same : password ++ 0 ∷ [] ≡ encoded = cc in
      rw (← same)
        ((is_eq_iff _ _).1 (c_string-c_string (password ++ 0 ∷ []) ∙ c_string-ended password));
}

abbrev stored : Server → Bytes → Option Bytes
stored s username = find bytes_discrete username s.users

insertion : is_eq secure_insert_user secure_insert_user ≡ true
insertion = (is_eq_iff secure_insert_user secure_insert_user).1 refl

no_insertion : is_eq secure_select_user secure_insert_user ≡ false
unfolding secure_select_user secure_insert_user bytes bytes_discrete ℕ_discrete
no_insertion = refl

run-inserts :
    (users : Map Bytes Bytes) (rows : List (List Value)) (username hashed : Bytes)
    → stored
        (run (record {
          users = users;
          query = secure_insert_user;
          params = text username ∷ text hashed ∷ [];
          rows = rows;
        }))
        username
      ≡ some hashed
unfolding run
run-inserts users rows username hashed =
    rw (insertion, find-insert bytes_discrete username username hashed users) (ground arith)

run-selects :
    (users : Map Bytes Bytes) (rows : List (List Value)) (username hashed : Bytes)
    → find bytes_discrete username users ≡ some hashed
    → (run (record {
      users = users;
      query = secure_select_user;
      params = text username ∷ [];
      rows = rows;
    })).rows
      ≡ (text hashed ∷ text (bytes "USER") ∷ []) ∷ []
unfolding run
run-selects users rows username hashed e = rw (no_insertion, e) refl

server-IsUserTable : IsUserTable server salt stored
unfolding next text_at
server-IsUserTable = record {
  inserted = λ c st username hashed s middle end p r.
      rw (r.2, p.2) (run-inserts s.users s.rows username hashed);
  selected = λ c st username hashed s end ran held bound. (
    text hashed ∷ text (bytes "USER") ∷ [],
    rw (ran.2.2, ran.1.2) (ap next (run-selects s.users s.rows username hashed held)),
    refl,
  );
  ping = λ c s. refl;
  connect = λ s. refl;
  close = λ c s. refl;
  stmt_close = λ st s. refl;
}

abbrev ready : World Server
ready = record {
  library = record { users = []; query = []; params = []; rows = [] };
  manager = record { connection_pool = 3 ∷ []; cur_conns = 1 };
  phase = idle;
}

abbrev alice : Bytes
alice = bytes "alice"

signed_up : (Auth.sign_up server argon2 salt alice alice ready).0 ≡ some success
unfolding Auth.sign_up bytes acquire get_connection prepare_statement bind_and_execute run
    bytes_discrete secure_check_user secure_insert_user ℕ_discrete find hash_password_argon2id
    index_of
signed_up = refl

-- It is the first of the two answers here.
logged_in :
    (Auth.login server argon2 salt alice alice
      (Auth.sign_up server argon2 salt alice alice ready).1).0
    ≡ success
unfolding Auth.sign_up Auth.login bytes acquire get_connection prepare_statement bind_and_execute
    run bytes_discrete secure_check_user secure_insert_user secure_select_user ℕ_discrete find
    hash_password_argon2id index_of verify_password_argon2id c_string release_connection insert next
    read_text text_at
logged_in = refl

sign_up-login_example :
    ((Auth.login server argon2 salt alice alice
        (Auth.sign_up server argon2 salt alice alice ready).1).0
      ≡ success)
    ⊎ ((Auth.login server argon2 salt alice alice
          (Auth.sign_up server argon2 salt alice alice ready).1).0
        ≡ db_error)
sign_up-login_example =
    sign_up-login server argon2 salt stored server-IsUserTable argon2-IsHash alice alice ready
      signed_up
