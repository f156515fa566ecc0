-- ===== src/BoardService/Posts.antt =====
-- What the answer of getAllPosts in src/services/board_service.hpp says about the database.
use bartimaeus_app.Base.{
  ◌≡◌, refl, ◌⊎◌, inl, inr, Bool, true, false, List, [], map, Option, none, some,
}
use bartimaeus_app.DbManager.{Connection}
use bartimaeus_app.Mysql.{Stmt, Value, Mysql, IsCursor}
use bartimaeus_app.Queries.{select_all_posts}
use bartimaeus_app.Database.{
  World, acquire, prepare_statement, c_string, text_at, int_at, read_text, on_stmt, stmt_execute,
  stmt_bind_result,
}
use bartimaeus_app.Database.Cursor.{Fetches, Reads, fetch_all-IsRead}
use bartimaeus_app.Database.Executed.{IsPrepared, prepare_statement-some}
use bartimaeus_app.BoardService.{
  post_columns, store_if, read_post, rows_if_bound, fetch_posts, select_posts, get_all_posts_on,
  get_all_posts,
}
use bartimaeus_app.Web.Services.{Post}

-- The post in a row.
abbrev pub post_in : List Value → Post
post_in row = record {
  id = int_at 0 row;
  title = c_string (text_at 1 row);
  content = c_string (text_at 2 row);
  author = c_string (text_at 3 row);
  created_at = c_string (text_at 4 row);
}

module _ {S : Type 0} (mysql : Mysql S) where
  read_post-Reads : (st : Stmt) → Reads mysql st read_post post_in
  unfolding read_post read_text
  read_post-Reads st = record { result = λ row w. refl; library = λ row w. refl }

  -- The posts of the rows that the statement delivers from the state `s` on, up to the first fetch
  -- without one: at the end, at an error or at a row that is longer than an array.
  abbrev pub AreRows : Stmt → S → List Post → Type 0
  AreRows st s posts =
      (rows : List (List Value)) × (end : S) × (posts ≡ map post_in rows)
      × Fetches mysql st s rows end

  -- The state after the execution of the statement, with its result stored.
  abbrev pub stored : Stmt → S → S
  stored st prepared = (mysql.stmt_store_result st (mysql.stmt_execute st prepared).1).1

  -- The statement was executed, stored and bound, from the state `prepared` on, and the posts are
  -- those of its rows.
  abbrev pub AreSelected : Stmt → S → List Post → Type 0
  AreSelected st prepared posts =
      ((mysql.stmt_execute st prepared).0 ≡ true)
      × ((mysql.stmt_store_result st (mysql.stmt_execute st prepared).1).0 ≡ true)
      × ((mysql.stmt_bind_result st post_columns (stored st prepared)).0 ≡ true)
      × AreRows st (mysql.stmt_bind_result st post_columns (stored st prepared)).1 posts

  -- The posts come from the rows of the query for all posts, on the connection that was borrowed.
  abbrev pub ArePosts : World S → List Post → Type 0
  ArePosts w posts =
      (c : Connection) × (st : Stmt) × (prepared : S) × ((acquire mysql w).0 ≡ some c)
      × IsPrepared mysql c select_all_posts st (acquire mysql w).1.library prepared
      × AreSelected st prepared posts

  -- The execution failed, or storing the result, or binding the arrays.
  abbrev pub IsUnselected : Stmt → S → Type 0
  IsUnselected st prepared =
      ((mysql.stmt_execute st prepared).0 ≡ false)
      ⊎ ((mysql.stmt_store_result st (mysql.stmt_execute st prepared).1).0 ≡ false)
      ⊎ ((mysql.stmt_bind_result st post_columns (stored st prepared)).0 ≡ false)

  -- Why there are no posts: no connection, no statement, or a call on it that failed.
  pub data Fails (w : World S) : Type 0 where
    no_connection : (acquire mysql w).0 ≡ none → Fails w
    no_statement :
        (c : Connection)
        → (acquire mysql w).0 ≡ some c
        → (prepare_statement mysql c select_all_posts (acquire mysql w).1).0 ≡ none
        → Fails w
    not_selected :
        (c : Connection) (st : Stmt) (prepared : S)
        → (acquire mysql w).0 ≡ some c
        → IsPrepared mysql c select_all_posts st (acquire mysql w).1.library prepared
        → IsUnselected st prepared
        → Fails w

  -- store_result is called after an execution without an error only.
  store_if-true :
      (st : Stmt) (executed : Bool) (w : World S)
      → (store_if mysql st executed w).0 ≡ true
      → (executed ≡ true)
        × ((mysql.stmt_store_result st w.library).0 ≡ true)
        × ((store_if mysql st executed w).1.library ≡ (mysql.stmt_store_result st w.library).1)
  unfolding store_if on_stmt
  store_if-true st true w e = (refl, e, refl)
  store_if-true st false w e = cc

  store_if-false :
      (st : Stmt) (executed : Bool) (w : World S)
      → (store_if mysql st executed w).0 ≡ false
      → (executed ≡ false) ⊎ ((mysql.stmt_store_result st w.library).0 ≡ false)
  unfolding store_if on_stmt
  store_if-false st true w e = inr e
  store_if-false st false w e = inl refl

  module _ (cursor : IsCursor mysql) where
    rows_if_bound-rows :
        (st : Stmt) (bound : Bool) (w : World S)
        → (((rows_if_bound mysql st bound w).0 ≡ []) × (bound ≡ false))
          ⊎ ((bound ≡ true) × AreRows st w.library (rows_if_bound mysql st bound w).0)
    unfolding rows_if_bound
    rows_if_bound-rows st false w = inl (refl, refl)
    rows_if_bound-rows st true w =
        let (rows, e, fetches) =
          fetch_all-IsRead mysql st read_post post_in (read_post-Reads st) cursor w in
        inr (refl, (rows, _, e, fetches))

    fetch_posts-rows :
        (c : Connection) (st : Stmt) (kept : Bool) (w : World S)
        → (((fetch_posts mysql c st kept w).0 ≡ [])
            × ((kept ≡ false)
                ⊎ ((kept ≡ true) × ((mysql.stmt_bind_result st post_columns w.library).0 ≡ false))))
          ⊎ ((kept ≡ true)
              × ((mysql.stmt_bind_result st post_columns w.library).0 ≡ true)
              × AreRows st
                  (mysql.stmt_bind_result st post_columns w.library).1
                  (fetch_posts mysql c st kept w).0)
    unfolding fetch_posts on_stmt
    fetch_posts-rows c st false w = inl (refl, inl refl)
    fetch_posts-rows c st true w =
        let asked = stmt_bind_result mysql st post_columns w in
        elim (rows_if_bound-rows st asked.0 asked.1) [
          | inl (e, unbound) ↦ inl (e, inr (refl, unbound))
          | inr (bound, rows) ↦ inr (refl, bound, rows)
        ]

    select_posts-rows :
        (c : Connection) (st : Option Stmt) (w : World S)
        → (((select_posts mysql c st w).0 ≡ [])
            × ((st ≡ none) ⊎ ((got : Stmt) × (st ≡ some got) × IsUnselected got w.library)))
          ⊎ ((got : Stmt) × (st ≡ some got)
              × AreSelected got w.library (select_posts mysql c st w).0)
    unfolding select_posts on_stmt
    select_posts-rows c none w = inl (refl, inl refl)
    select_posts-rows c (some st) w =
        let run = stmt_execute mysql st w in
        let kept_now = store_if mysql st run.0 run.1 in
        elim (fetch_posts-rows c st kept_now.0 kept_now.1) [
          | inl (e, inl unkept) ↦ inl (
            e,
            inr (
              st,
              refl,
              elim (store_if-false st run.0 run.1 unkept) [
                | inl unexecuted ↦ inl unexecuted
                | inr unstored ↦ inr (inl unstored)
              ],
            ),
          )
          | inl (e, inr (kept, unbound)) ↦
              let (_, _, same) = store_if-true st run.0 run.1 kept in
              inl (e, inr (st, refl, inr (inr (rw (← same) unbound))))
          | inr (kept, bound, rows) ↦
              let (executed, ok, same) = store_if-true st run.0 run.1 kept in
              inr (st, refl, (executed, ok, rw (← same) bound, rw (← same) rows))
        ]

    get_all_posts_on-rows :
        (c : Option Connection) (w : World S)
        → (((get_all_posts_on mysql c w).0 ≡ [])
            × ((c ≡ none)
                ⊎ ((got : Connection) × (c ≡ some got)
                    × (((prepare_statement mysql got select_all_posts w).0 ≡ none)
                        ⊎ ((st : Stmt) × (prepared : S) × IsPrepared mysql got select_all_posts st
                              w.library prepared
                            × IsUnselected st prepared)))))
          ⊎ ((got : Connection) × (st : Stmt) × (prepared : S) × (c ≡ some got)
              × IsPrepared mysql got select_all_posts st w.library prepared
              × AreSelected st prepared (get_all_posts_on mysql c w).0)
    unfolding get_all_posts_on
    get_all_posts_on-rows none w = inl (refl, inl refl)
    get_all_posts_on-rows (some c) w =
        let made_now = prepare_statement mysql c select_all_posts w in
        elim (select_posts-rows c made_now.0 made_now.1) [
          | inl (e, inl nothing) ↦ inl (e, inr (c, refl, inl nothing))
          | inl (e, inr (st, found, failed)) ↦
              let made = prepare_statement-some mysql c select_all_posts w st found in
              inl (e, inr (c, refl, inr (st, _, made, failed)))
          | inr (st, found, selected) ↦
              inr (
                c,
                st,
                _,
                refl,
                prepare_statement-some mysql c select_all_posts w st found,
                selected,
              )
        ]

    -- When the library delivers each row once, getAllPosts ends: with no post, when there was no
    -- connection or no statement, or when its execution, storing its result or binding the arrays
    -- failed; or, when none of these failed, with the posts of the rows of the query for all posts,
    -- in their order, up to the first fetch without a row. That may be the end of the result, an
    -- error, or a row that is longer than an array.
    pub get_all_posts-ArePosts :
        (w : World S)
        → (((get_all_posts mysql w).0 ≡ []) × Fails w) ⊎ ArePosts w (get_all_posts mysql w).0
    unfolding get_all_posts
    get_all_posts-ArePosts w =
        let borrowed = acquire mysql w in
        elim (get_all_posts_on-rows borrowed.0 borrowed.1) [
          | inl (e, inl nobody) ↦ inl (e, no_connection nobody)
          | inl (e, inr (c, got, inl nothing)) ↦ inl (e, no_statement c got nothing)
          | inl (e, inr (c, got, inr (st, prepared, made, failed))) ↦
              inl (e, not_selected c st prepared got made failed)
          | inr posts ↦ inr posts
        ]
