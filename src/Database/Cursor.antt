-- ===== src/Database/Cursor.antt =====
-- The loop that fetches the rows of a result reads them all.
use bartimaeus_app.Base.{
  ℕ, zero, suc, ◌+◌, ◌<◌, ◌≡◌, refl, sym, ◌∙◌, List, [], ◌∷◌, map, Option, none, some, arith,
}
use bartimaeus_app.Mysql.{Stmt, Value, Mysql, IsCursor}
use bartimaeus_app.Database.{World, Db, on_stmt, next_row, fetch_loop, fetch_all}

module _ {S : Type 0} (mysql : Mysql S) (st : Stmt) where
  -- The rows that the calls of mysql_stmt_fetch deliver one after the other, until there is none.
  pub data Fetches : S → List (List Value) → S → Type 0 where
    nothing_left :
        (s : S) → (mysql.stmt_fetch st s).0 ≡ none → Fetches s [] (mysql.stmt_fetch st s).1
    one_more :
        (s : S) (row : List Value) (rows : List (List Value)) (end : S)
        → (mysql.stmt_fetch st s).0 ≡ some row
        → Fetches (mysql.stmt_fetch st s).1 rows end
        → Fetches s (row ∷ rows) end

  one_more_from :
      (s s' : S) (row : List Value) (rows : List (List Value)) (end : S)
      → (mysql.stmt_fetch st s).0 ≡ some row
      → s' ≡ (mysql.stmt_fetch st s).1
      → Fetches s' rows end
      → Fetches s (row ∷ rows) end
  one_more_from s s' row rows end e l h = one_more s row rows end e (rw (← l) h)

  -- A reader of rows that does not ask the library.
  pub record Reads {A : Type 0} (read : List Value → Db S A) (value : List Value → A) : Type 0 where
    pub result : (row : List Value) (w : World S) → (read row w).0 ≡ value row
    pub library : (row : List Value) (w : World S) → (read row w).1.library ≡ w.library

  module _ {A : Type 0} (read : List Value → Db S A) (value : List Value → A)
      (reads : Reads read value) where
    -- What a run of the loop shows.
    abbrev pub IsRead : S → List A × World S → Type 0
    IsRead s (values, w) =
        (rows : List (List Value)) × (values ≡ map value rows) × Fetches s rows w.library

    next_row-IsRead :
        (loop : Db S (List A)) (s : S) (fetched : Option (List Value)) (w : World S)
        → (mysql.stmt_fetch st s).0 ≡ fetched
        → (mysql.stmt_fetch st s).1 ≡ w.library
        → ((row : List Value) (w' : World S)
            → fetched ≡ some row
            → w'.library ≡ w.library
            → IsRead w'.library (loop w'))
        → IsRead s (next_row mysql loop read fetched w)
    unfolding next_row
    next_row-IsRead loop s none w e l h = ([], refl, rw (← l) (nothing_left s e))
    next_row-IsRead loop s (some row) w e l h =
        let (rows, es, fetches) = h row (read row w).1 refl (reads.library row w) in
        (
          row ∷ rows,
          rw (reads.result row w, es) refl,
          one_more_from s _ row rows _ e (reads.library row w ∙ sym l) fetches,
        )

    fetch_loop-IsRead :
        (cursor : IsCursor mysql) (fuel : ℕ) (w : World S)
        → mysql.rows_left st w.library < fuel
        → IsRead w.library (fetch_loop mysql fuel st read w)
    unfolding fetch_loop on_stmt
    fetch_loop-IsRead cursor zero w h = absurd (omega arith)
    fetch_loop-IsRead cursor (suc fuel) w h =
        next_row-IsRead (fetch_loop mysql fuel st read) w.library _ _ refl refl (λ row w' e l.
          let less = cursor.fetch_takes st w.library row e in
          fetch_loop-IsRead cursor fuel w' (rw l (omega arith)))

    -- When each row is fetched once, the fuel of the loop is enough: the values are those of all the
    -- rows that the library delivers until it has none.
    pub fetch_all-IsRead :
        IsCursor mysql → (w : World S) → IsRead w.library (fetch_all mysql st read w)
    unfolding fetch_all
    fetch_all-IsRead cursor w =
        fetch_loop-IsRead cursor (mysql.rows_left st w.library + 1) w (omega arith)
