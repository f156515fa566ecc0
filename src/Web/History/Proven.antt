-- ===== src/Web/History/Proven.antt =====
-- The application with the services of src/services/ behind it: what a session rests on.
use bartimaeus_app.Base.{ℕ, ◌≡◌, List, ◌∷◌, ◌++◌, some}
use bartimaeus_app.Base.Bytes.{Bytes, bytes}
use bartimaeus_app.Hex.{hex}
use bartimaeus_app.Mysql.{Mysql}
use bartimaeus_app.Helpers.Password.{Argon2}
use bartimaeus_app.Database.{World}
use bartimaeus_app.AuthService.Login.{IsProven}
use bartimaeus_app.Web.Http.{Request, Response}
use bartimaeus_app.Web.Services.{AuthService, App, Env}
use bartimaeus_app.Web.Routes.{post_login}
use bartimaeus_app.Web.Backend.{auth_backend, board_backend}
use bartimaeus_app.Web.History.{Event, request}
use bartimaeus_app.Web.History.Served.{application}

-- A login in the history, with what came before it.
pub record Login : Type 0 where
  pub before : List Event
  pub env : Env
  pub req : Request
  pub res : Response
  pub rest : List Event

abbrev pub history_of : Login → List Event
history_of l = l.before ++ request l.env l.req post_login l.res ∷ l.rest

-- The id that createSession made for the login.
abbrev pub IsMade : Login → Bytes → Type 0
IsMade l session_id =
    (id_buffer : List ℕ) × (l.env.random 0 ≡ some id_buffer) × (session_id ≡ hex id_buffer)

module _ {S : Type 0} (mysql : Mysql S) (argon2 : Argon2) (salt : S → List ℕ × S)
    (db : World S) where
  abbrev pub web : List Event → App (World S)
  web = application (auth_backend mysql argon2 salt) (board_backend mysql argon2 salt) db

  -- A login of the user is in the history; when it came, the database was asked for the user by name
  -- and Argon2 accepted its password for the hash that was delivered.
  abbrev pub IsProvenUser : List Event → Bytes → Bytes → Type 0
  IsProvenUser events session_id username =
      (l : Login) × (events ≡ history_of l)
      × (username ≡ l.req.get_param_value (bytes "username"))
      × IsMade l session_id
      × IsProven mysql argon2 salt username (l.req.get_param_value (bytes "password"))
          (web l.before).db
