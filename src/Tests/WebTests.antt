-- ===== src/Tests/WebTests.antt =====
-- The theorems on the HTTP side, at a board with one post, a user who is logged in and a stranger.
use bartimaeus_app.Base.{
  ℕ, ◌+◌, ◌≤◌, ◌≡◌, refl, ◌≢◌, ite, inr, true, false, [], ◌∷◌, none, some, ℕ_discrete,
}
use bartimaeus_app.Base.Bytes.{Bytes, bytes, bytes_discrete}
use bartimaeus_app.Base.Int.{pos}
use bartimaeus_app.Base.Map.{find}
use bartimaeus_app.Session.{Session, validate_session}
use bartimaeus_app.Session.View.{active, SameView}
use bartimaeus_app.Helpers.Cookie.{get_cookie_value}
use bartimaeus_app.Web.Http.{Request, Response}
use bartimaeus_app.Web.Services.{
  AuthService, BoardService, Post, success, App, Env, done, UserContext,
}
use bartimaeus_app.Web.Middleware.{session_cookie}
use bartimaeus_app.Web.Routes.{
  create_post, get_posts, serve, is_page_request, is_public_page, unhandled, pre_routing,
}
use bartimaeus_app.Web.Pages.{pre_routing-unhandled}
use bartimaeus_app.Web.Access.{
  unauthorized, bad_csrf, looked_up, expelled, current_user, IsForged, serve-unauthorized,
  serve-forged,
}

abbrev post : Post
post = record {
  id = pos 7;
  title = bytes "hello";
  content = bytes "world";
  author = bytes "bob";
  created_at = bytes "now";
}

-- The database is the number of calls so far.
abbrev auth_service : AuthService ℕ
auth_service = record {
  sign_up = λ u p d. (some success, d + 1);
  login = λ u p d. (success, d + 1);
  get_user_role = λ u d. (bytes "USER", d + 1);
  get_all_users = λ d. ([], d + 1);
}

abbrev board_service : BoardService ℕ
board_service = record {
  write_post = λ t c a d. (true, d + 1);
  get_all_posts = λ d. (post ∷ [], d + 1);
  get_post_by_id = λ i d. (post, d + 1);
  delete_post = λ i u r d. (true, d + 1);
}

abbrev env : Env
env = record { clock = λ n. n; random = λ n. none }

-- A request whose headers and parameters are all `text`.
abbrev request : Bytes → Request
request text = record {
  method = bytes "POST";
  path = bytes "/api/post";
  has_header = λ n. true;
  get_header_value = λ n. text;
  get_param_value = λ n. bytes "7";
}

abbrev response : Response
response = record { status = none; headers = []; body = []; content_type = [] }

abbrev quiet : App ℕ
quiet = record {
  session_manager = record { sessions = [] };
  login_limiter = record { attempts = [] };
  db = 0;
}

no_user : current_user env (request []) quiet ≡ []
unfolding find
no_user = refl

serve-unauthorized_example :
    (serve auth_service board_service env (request []) get_posts quiet response
      ≡ done (looked_up env (request []) quiet) (unauthorized response))
    × ((looked_up env (request []) quiet).db ≡ quiet.db)
    × ((looked_up env (request []) quiet).login_limiter ≡ quiet.login_limiter)
    × SameView
        (env.clock 0)
        quiet.session_manager
        (looked_up env (request []) quiet).session_manager
serve-unauthorized_example =
    serve-unauthorized auth_service board_service env (request []) quiet response get_posts refl
      no_user

abbrev session : Session
session = record { username = bytes "alice"; expires_at = 100; csrf_token = bytes "t" }

-- The cookie is there, and the same text is sent as a token.
abbrev cookie : Request
cookie = request (bytes "auth_session=s")

abbrev busy : App ℕ
busy = record quiet { session_manager = record { sessions = (bytes "s", session) ∷ [] } }

busy-active : active busy.session_manager (session_cookie cookie) 0 ≡ some session
unfolding session_cookie find bytes_discrete bytes get_cookie_value ℕ_discrete
busy-active = refl

alice-not_empty : session.username ≢ []
unfolding bytes
alice-not_empty e = cc

cookie-IsForged : IsForged env cookie busy
unfolding session_cookie find bytes_discrete bytes get_cookie_value ℕ_discrete
cookie-IsForged = inr (λ e. cc)

serve-forged_example :
    (serve auth_service board_service env cookie create_post busy response
      ≡ done (expelled env cookie busy) (bad_csrf response))
    × ((expelled env cookie busy).db ≡ busy.db)
    × ((expelled env cookie busy).login_limiter ≡ busy.login_limiter)
    × ((k : Bytes) (t : ℕ)
        → env.clock 1 ≤ t
        → active (expelled env cookie busy).session_manager k t
          ≡ ite (bytes_discrete (session_cookie cookie) k) none (active busy.session_manager k t))
serve-forged_example =
    serve-forged auth_service board_service env cookie busy response create_post session refl
      busy-active alice-not_empty cookie-IsForged

abbrev alice : UserContext
alice = record { username = bytes "alice"; session_id = bytes "s" }

-- A request for the front page's file by the user of the session.
abbrev index : Request
index = record {
  method = bytes "GET";
  path = bytes "/index.html";
  has_header = λ n. true;
  get_header_value = λ n. bytes "auth_session=s";
  get_param_value = λ n. [];
}

index-is_page : is_page_request index.path ≡ true
unfolding is_page_request bytes bytes_discrete ℕ_discrete
index-is_page = refl

index-not_public : is_public_page index.path ≡ false
unfolding is_public_page bytes bytes_discrete ℕ_discrete
index-not_public = refl

index-let_through : pre_routing auth_service env index busy response ≡ unhandled busy
unfolding pre_routing bytes bytes_discrete ℕ_discrete validate_session find session_cookie
    get_cookie_value
index-let_through = refl

pre_routing-unhandled_example :
    (index.has_header (bytes "Cookie") ≡ true)
    × (current_user env index busy ≢ [])
    × (index.path ≡ bytes "/admin.html"
        → (auth_service.get_user_role (current_user env index busy) busy.db).0 ≡ bytes "ADMIN")
pre_routing-unhandled_example =
    pre_routing-unhandled auth_service env index busy busy response index-is_page index-not_public
      index-let_through
