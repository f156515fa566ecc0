-- ===== src/Web/Services.antt =====
-- The state behind the handlers, and the services as the controllers use them. The database sides
-- of AuthService and BoardService are an interface here; `D` is the state that they work on.
use bartimaeus_app.Base.{ℕ, Bool, List, Option}
use bartimaeus_app.Base.Bytes.{Bytes}
use bartimaeus_app.Base.Int.{ℤ}
use bartimaeus_app.Session.{SessionManager}
use bartimaeus_app.Limiter.{LoginLimiter}
use bartimaeus_app.Web.Http.{Response}

pub data AuthResult : Type 0 where
  success fail db_error : AuthResult

pub record Post : Type 0 where
  pub id : ℤ
  pub title : Bytes
  pub content : Bytes
  pub author : Bytes
  pub created_at : Bytes

-- `none` is a thrown std::runtime_error: the password hash failed.
pub record AuthService (D : Type 0) : Type 0 where
  pub sign_up : Bytes → Bytes → D → Option AuthResult × D
  pub login : Bytes → Bytes → D → AuthResult × D
  pub get_user_role : Bytes → D → Bytes × D
  pub get_all_users : D → List Bytes × D

pub record BoardService (D : Type 0) : Type 0 where
  pub write_post : Bytes → Bytes → Bytes → D → Bool × D
  pub get_all_posts : D → List Post × D
  pub get_post_by_id : ℤ → D → Post × D
  pub delete_post : ℤ → Bytes → Bytes → D → Bool × D

pub record App (D : Type 0) : Type 0 where
  pub session_manager : SessionManager
  pub login_limiter : LoginLimiter
  pub db : D

-- What happens around one request: the readings of the clock and the answers of RAND_bytes, in the
-- order in which the code asks for them.
pub record Env : Type 0 where
  pub clock : ℕ → ℕ
  pub random : ℕ → Option (List ℕ)

-- A handler returns, or throws; what it changed before the throw stays changed.
pub data Handled (D : Type 0) : Type 0 where
  done : App D → Response → Handled D
  threw : App D → Response → Handled D

pub record UserContext : Type 0 where
  pub username : Bytes
  pub session_id : Bytes

-- AuthenticateHandler; the request and the environment are fixed around it.
abbrev pub Handler : Type 0 → Type 0
Handler D = UserContext → App D → Response → Handled D
