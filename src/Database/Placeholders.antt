-- ===== src/Database/Placeholders.antt =====
-- How many parameters each text of src/db_queries.hpp takes.
use bartimaeus_app.Base.{◌≡◌, refl}
use bartimaeus_app.Base.Bytes.{bytes}
use bartimaeus_app.Database.{placeholders}
use bartimaeus_app.Queries.{
  secure_check_user, secure_insert_user, secure_select_user, secure_select_user_role,
  secure_select_all_users, secure_insert_post, select_all_posts, secure_select_post,
  secure_delete_post,
}

pub placeholders-secure_check_user : 1 ≡ placeholders secure_check_user
unfolding placeholders secure_check_user bytes
placeholders-secure_check_user = refl

pub placeholders-secure_insert_user : 2 ≡ placeholders secure_insert_user
unfolding placeholders secure_insert_user bytes
placeholders-secure_insert_user = refl

pub placeholders-secure_select_user : 1 ≡ placeholders secure_select_user
unfolding placeholders secure_select_user bytes
placeholders-secure_select_user = refl

pub placeholders-secure_select_user_role : 1 ≡ placeholders secure_select_user_role
unfolding placeholders secure_select_user_role bytes
placeholders-secure_select_user_role = refl

pub placeholders-secure_select_all_users : 0 ≡ placeholders secure_select_all_users
unfolding placeholders secure_select_all_users bytes
placeholders-secure_select_all_users = refl

pub placeholders-secure_insert_post : 3 ≡ placeholders secure_insert_post
unfolding placeholders secure_insert_post bytes
placeholders-secure_insert_post = refl

pub placeholders-select_all_posts : 0 ≡ placeholders select_all_posts
unfolding placeholders select_all_posts bytes
placeholders-select_all_posts = refl

pub placeholders-secure_select_post : 1 ≡ placeholders secure_select_post
unfolding placeholders secure_select_post bytes
placeholders-secure_select_post = refl

pub placeholders-secure_delete_post : 3 ≡ placeholders secure_delete_post
unfolding placeholders secure_delete_post bytes
placeholders-secure_delete_post = refl
