-- ===== src/BoardService/Protocol.antt =====
-- No method of BoardService leaves a statement open or a connection borrowed.
use bartimaeus_app.Base.{
  ◌≡◌, refl, sym, ◌∙◌, length, Bool, true, false, List, [], ◌∷◌, Option, none, some, ap,
  if◌then◌else◌,
}
use bartimaeus_app.Base.Bytes.{Bytes}
use bartimaeus_app.Base.Int.{ℤ}
use bartimaeus_app.DbManager.{Connection}
use bartimaeus_app.Mysql.{Stmt, Value, text, int, Mysql}
use bartimaeus_app.Queries.{
  secure_insert_post, select_all_posts, secure_select_post, secure_delete_post,
}
use bartimaeus_app.Database.{
  World, Stage, stored_stage, failed, executed, receiving, Phase, idle, prepared, text_at,
  stmt_execute, bind_and_execute,
}
use bartimaeus_app.Database.Protocol.{
  Moves, ok_stage, acquire-Moves, look-Moves, store-Moves, stmt_execute_now-Moves,
  stmt_bind_result-Moves, finish-Moves, prepare_statement-Moves, bind_and_execute-Moves,
  after_acquire, after_prepare,
}
use bartimaeus_app.Database.Rows.{
  RowFits, IsRoomy, read_text-Moves, stmt_fetch-Moves, fetch_all-Moves,
}
use bartimaeus_app.Database.Placeholders.{
  placeholders-secure_insert_post, placeholders-select_all_posts, placeholders-secure_select_post,
  placeholders-secure_delete_post,
}
use bartimaeus_app.BoardService.{
  post_columns, read_post, insert_post, write_post_on, write_post, store_if, rows_if_bound,
  fetch_posts, select_posts, get_all_posts_on, get_all_posts, post_of_row, row_if_bound, fetch_post,
  select_post, get_post_by_id_on, get_post_by_id, affected_if, remove_post, delete_post_on,
  delete_post,
}

read_post-Moves :
    {S : Type 0} (p : Phase) (row : List Value)
    → RowFits row
    → Moves {S = S} p (read_post row) (λ x. p)
unfolding read_post
read_post-Moves p row fits w h = read_text-Moves p 64 (text_at 4 row) fits.fifth _ (
    read_text-Moves p 256 (text_at 3 row) fits.fourth _ (
      read_text-Moves p 4096 (text_at 2 row) fits.third _
        (read_text-Moves p 256 (text_at 1 row) fits.second w h)))

-- The stage after the execution and storing its result.
abbrev kept_stage : Bool → Bool → Stage
kept_stage ok stored = if ok then stored_stage executed stored else failed

module _ {S : Type 0} (mysql : Mysql S) where
  insert_post-Moves :
      (c : Connection) (params : List Value) (st : Option Stmt)
      → length params ≡ 3
      → Moves (after_prepare c secure_insert_post st) (insert_post mysql c params st) (λ x. idle)
  unfolding insert_post
  insert_post-Moves c params none e w h = h
  insert_post-Moves c params (some st) e w h =
      finish-Moves mysql c st _ _
        (bind_and_execute-Moves mysql c st params _ (e ∙ placeholders-secure_insert_post) w h)

  write_post_on-Moves :
      (params : List Value) (c : Option Connection)
      → length params ≡ 3
      → Moves (after_acquire c) (write_post_on mysql params c) (λ x. idle)
  unfolding write_post_on
  write_post_on-Moves params none e w h = h
  write_post_on-Moves params (some c) e w h =
      insert_post-Moves c params _ e _ (prepare_statement-Moves mysql c secure_insert_post w h)

  pub write_post-Moves :
      (title content author : Bytes)
      → Moves idle (write_post mysql title content author) (λ x. idle)
  unfolding write_post
  write_post-Moves title content author w h =
      write_post_on-Moves (text title ∷ text content ∷ text author ∷ []) _ refl _
        (acquire-Moves mysql w h)

  affected_if-Moves :
      (c : Connection) (st : Stmt) (ok : Bool)
      → Moves
          (prepared c st (ok_stage executed ok))
          (affected_if mysql st ok)
          (λ x. prepared c st (ok_stage executed ok))
  unfolding affected_if
  affected_if-Moves c st false w h = h
  affected_if-Moves c st true w h =
      look-Moves mysql c st (λ s. (mysql.stmt_affected_rows st s, s)) true w h

  remove_post-Moves :
      (c : Connection) (params : List Value) (st : Option Stmt)
      → length params ≡ 3
      → Moves (after_prepare c secure_delete_post st) (remove_post mysql c params st) (λ x. idle)
  unfolding remove_post
  remove_post-Moves c params none e w h = h
  remove_post-Moves c params (some st) e w h = finish-Moves mysql c st _ _ (
      affected_if-Moves c st _ _
        (bind_and_execute-Moves mysql c st params _ (e ∙ placeholders-secure_delete_post) w h))

  delete_post_on-Moves :
      (params : List Value) (c : Option Connection)
      → length params ≡ 3
      → Moves (after_acquire c) (delete_post_on mysql params c) (λ x. idle)
  unfolding delete_post_on
  delete_post_on-Moves params none e w h = h
  delete_post_on-Moves params (some c) e w h =
      remove_post-Moves c params _ e _ (prepare_statement-Moves mysql c secure_delete_post w h)

  pub delete_post-Moves :
      (id : ℤ) (username role : Bytes) → Moves idle (delete_post mysql id username role) (λ x. idle)
  unfolding delete_post
  delete_post-Moves id username role w h =
      delete_post_on-Moves (int id ∷ text username ∷ text role ∷ []) _ refl _
        (acquire-Moves mysql w h)

  store_if-Moves :
      (c : Connection) (st : Stmt) (ok : Bool)
      → Moves
          (prepared c st (ok_stage executed ok))
          (store_if mysql st ok)
          (λ stored. prepared c st (kept_stage ok stored))
  unfolding store_if
  store_if-Moves c st false w h = h
  store_if-Moves c st true w h = store-Moves mysql c st executed (λ ok. refl) w h

  -- It answers `true` only after an execution without an error.
  store_if-true :
      (st : Stmt) (ok : Bool) (w : World S)
      → (store_if mysql st ok w).0 ≡ true
      → kept_stage ok (store_if mysql st ok w).0 ≡ executed
  unfolding store_if
  store_if-true st false w e = cc
  store_if-true st true w e = ap (stored_stage executed) e

module _ {S : Type 0} (mysql : Mysql S) (roomy : IsRoomy mysql) where
  rows_if_bound-Moves :
      (c : Connection) (st : Stmt) (ok : Bool)
      → Moves
          (prepared c st (ok_stage receiving ok))
          (rows_if_bound mysql st ok)
          (λ x. prepared c st (ok_stage receiving ok))
  unfolding rows_if_bound
  rows_if_bound-Moves c st false w h = h
  rows_if_bound-Moves c st true w h =
      fetch_all-Moves mysql roomy c st true read_post (read_post-Moves (prepared c st receiving)) w
        h

  fetch_posts-Moves :
      (c : Connection) (st : Stmt) (stage : Stage) (ok : Bool)
      → (ok ≡ true → stage ≡ executed)
      → Moves (prepared c st stage) (fetch_posts mysql c st ok) (λ x. idle)
  unfolding fetch_posts
  fetch_posts-Moves c st stage false e w h = finish-Moves mysql c st stage w h
  fetch_posts-Moves c st stage true e w h = finish-Moves mysql c st _ _ (
      rows_if_bound-Moves c st _ _
        (stmt_bind_result-Moves mysql c st post_columns w (rw (e refl) at h)))

  select_posts-Moves :
      (c : Connection) (st : Option Stmt)
      → Moves (after_prepare c select_all_posts st) (select_posts mysql c st) (λ x. idle)
  unfolding select_posts
  select_posts-Moves c none w h = h
  select_posts-Moves c (some st) w h =
      let ran = stmt_execute mysql st w in
      fetch_posts-Moves c st (kept_stage ran.0 (store_if mysql st ran.0 ran.1).0) _
        (store_if-true mysql st ran.0 ran.1) _
        (store_if-Moves mysql c st ran.0 ran.1
          (stmt_execute_now-Moves mysql c st _ (sym placeholders-select_all_posts) w h))

  get_all_posts_on-Moves :
      (c : Option Connection) → Moves (after_acquire c) (get_all_posts_on mysql c) (λ x. idle)
  unfolding get_all_posts_on
  get_all_posts_on-Moves none w h = h
  get_all_posts_on-Moves (some c) w h =
      select_posts-Moves c _ _ (prepare_statement-Moves mysql c select_all_posts w h)

  pub get_all_posts-Moves : Moves idle (get_all_posts mysql) (λ x. idle)
  unfolding get_all_posts
  get_all_posts-Moves w h = get_all_posts_on-Moves _ _ (acquire-Moves mysql w h)

  row_if_bound-Moves :
      (c : Connection) (st : Stmt) (ok : Bool)
      → Moves
          (prepared c st (ok_stage receiving ok))
          (row_if_bound mysql st ok)
          (λ x. prepared c st (ok_stage receiving ok))
  unfolding row_if_bound post_of_row
  row_if_bound-Moves c st false w h = h
  row_if_bound-Moves c st true w h =
      stmt_fetch-Moves mysql roomy c st true (post_of_row mysql) (λ x. prepared c st receiving)
        (λ v k. k) (read_post-Moves (prepared c st receiving)) w h

  fetch_post-Moves :
      (c : Connection) (st : Stmt) (stage : Stage) (ok : Bool)
      → (ok ≡ true → stage ≡ executed)
      → Moves (prepared c st stage) (fetch_post mysql c st ok) (λ x. idle)
  unfolding fetch_post
  fetch_post-Moves c st stage false e w h = finish-Moves mysql c st stage w h
  fetch_post-Moves c st stage true e w h = finish-Moves mysql c st _ _ (
      row_if_bound-Moves c st _ _
        (stmt_bind_result-Moves mysql c st post_columns w (rw (e refl) at h)))

  select_post-Moves :
      (c : Connection) (id : ℤ) (st : Option Stmt)
      → Moves (after_prepare c secure_select_post st) (select_post mysql c id st) (λ x. idle)
  unfolding select_post
  select_post-Moves c id none w h = h
  select_post-Moves c id (some st) w h =
      let ran = bind_and_execute mysql st (int id ∷ []) w in
      fetch_post-Moves c st (kept_stage ran.0 (store_if mysql st ran.0 ran.1).0) _
        (store_if-true mysql st ran.0 ran.1) _
        (store_if-Moves mysql c st ran.0 ran.1
          (bind_and_execute-Moves mysql c st (int id ∷ []) _ placeholders-secure_select_post w h))

  get_post_by_id_on-Moves :
      (id : ℤ) (c : Option Connection)
      → Moves (after_acquire c) (get_post_by_id_on mysql id c) (λ x. idle)
  unfolding get_post_by_id_on
  get_post_by_id_on-Moves id none w h = h
  get_post_by_id_on-Moves id (some c) w h =
      select_post-Moves c id _ _ (prepare_statement-Moves mysql c secure_select_post w h)

  pub get_post_by_id-Moves : (id : ℤ) → Moves idle (get_post_by_id mysql id) (λ x. idle)
  unfolding get_post_by_id
  get_post_by_id-Moves id w h = get_post_by_id_on-Moves id _ _ (acquire-Moves mysql w h)
