-- ===== src/Queries.antt =====
-- src/db_queries.hpp: the texts that the services prepare.
use bartimaeus_app.Base.Bytes.{Bytes, bytes}

unfoldable pub secure_check_user : Bytes
secure_check_user = bytes "SELECT username FROM users WHERE username = ?;"

unfoldable pub secure_insert_user : Bytes
secure_insert_user = bytes "INSERT INTO users (username, password) VALUES (?, ?);"

unfoldable pub secure_select_user : Bytes
secure_select_user = bytes "SELECT password, role FROM users WHERE username = ?;"

unfoldable pub secure_select_user_role : Bytes
secure_select_user_role = bytes "SELECT role FROM users WHERE username = ?;"

unfoldable pub secure_select_all_users : Bytes
secure_select_all_users = bytes "SELECT username, role FROM users;"

unfoldable pub secure_insert_post : Bytes
secure_insert_post = bytes "INSERT INTO posts (title, content, author) VALUES (?, ?, ?);"

unfoldable pub select_all_posts : Bytes
select_all_posts =
    bytes "SELECT id, title, content, author, created_at FROM posts ORDER BY id DESC;"

unfoldable pub secure_select_post : Bytes
secure_select_post = bytes "SELECT * FROM posts WHERE id = ?;"

unfoldable pub secure_delete_post : Bytes
secure_delete_post = bytes "DELETE FROM posts WHERE id = ? AND (author = ? OR ? = 'ADMIN')"
