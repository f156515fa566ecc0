-- ===== src/Database/Rows.antt =====
-- The rows of a result in the protocol of connections and statements: texts that are read from arrays,
-- and the loop that fetches.
use bartimaeus_app.Base.{
  ℕ, zero, suc, ◌+◌, ◌<◌, ◌≡◌, refl, false, List, Option, none, some, arith, length, leb, Bool,
}
use bartimaeus_app.Base.Bytes.{Bytes}
use bartimaeus_app.DbManager.{Connection}
use bartimaeus_app.Mysql.{Stmt, Value, Mysql}
use bartimaeus_app.Database.{
  receiving, stored_stage, Phase, prepared, Db, ◌>>=◌, c_string, text_at, read_text, on_stmt,
  next_row, fetch_loop, fetch_all, stmt_fetch,
}
use bartimaeus_app.Database.Protocol.{Moves, fetch-Moves}

-- No text of the row fills the array that the services read it from.
pub record RowFits (row : List Value) : Type 0 where
  pub first : length (c_string (text_at 0 row)) < 255
  pub second : length (c_string (text_at 1 row)) < 256
  pub third : length (c_string (text_at 2 row)) < 4096
  pub fourth : length (c_string (text_at 3 row)) < 256
  pub fifth : length (c_string (text_at 4 row)) < 64

pub record IsRoomy {S : Type 0} (mysql : Mysql S) : Type 0 where
  pub fits :
      (st : Stmt) (s : S) (row : List Value) → (mysql.stmt_fetch st s).0 ≡ some row → RowFits row

lt→not_leb : (a b : ℕ) → a < b → leb b a ≡ false
lt→not_leb a b h = ground arith

pub read_text-Moves :
    {S : Type 0} (p : Phase) (size : ℕ) (s : Bytes)
    → length (c_string s) < size
    → Moves {S = S} p (read_text size s) (λ x. p)
unfolding read_text
read_text-Moves p size s small w h = rw (lt→not_leb _ _ small) h

module _ {S : Type 0} (mysql : Mysql S) (roomy : IsRoomy mysql) (c : Connection) (st : Stmt)
    (stored : Bool) where
  fetch_cases :
      {A : Type 0} (f : Option (List Value) → Db S A) (r : A → Phase)
      → Moves (prepared c st (stored_stage receiving stored)) (f none) r
      → ((row : List Value)
          → RowFits row
          → Moves (prepared c st (stored_stage receiving stored)) (f (some row)) r)
      → (row : Option (List Value))
      → ((columns : List Value) → row ≡ some columns → RowFits columns)
      → Moves (prepared c st (stored_stage receiving stored)) (f row) r
  fetch_cases f r hn hs none ok = hn
  fetch_cases f r hn hs (some columns) ok = hs columns (ok columns refl)

  pub stmt_fetch-Moves :
      {A : Type 0} (f : Option (List Value) → Db S A) (r : A → Phase)
      → Moves (prepared c st (stored_stage receiving stored)) (f none) r
      → ((row : List Value)
          → RowFits row
          → Moves (prepared c st (stored_stage receiving stored)) (f (some row)) r)
      → Moves (prepared c st (stored_stage receiving stored)) (stmt_fetch mysql st >>= f) r
  unfolding on_stmt
  stmt_fetch-Moves f r hn hs w h =
      fetch_cases f r hn hs (mysql.stmt_fetch st w.library).0 (roomy.fits st w.library)
        (stmt_fetch mysql st w).1 (fetch-Moves mysql c st stored w h)

  next_row-Moves :
      {A : Type 0} (loop : Db S (List A)) (read : List Value → Db S A) (row : List Value)
      → Moves
          (prepared c st (stored_stage receiving stored))
          loop
          (λ rows. prepared c st (stored_stage receiving stored))
      → Moves
          (prepared c st (stored_stage receiving stored))
          (read row)
          (λ a. prepared c st (stored_stage receiving stored))
      → Moves
          (prepared c st (stored_stage receiving stored))
          (next_row mysql loop read (some row))
          (λ rows. prepared c st (stored_stage receiving stored))
  unfolding next_row
  next_row-Moves loop read row hl hr w h = hl (read row w).1 (hr w h)

  fetch_loop-Moves :
      {A : Type 0} (fuel : ℕ) (read : List Value → Db S A)
      → ((row : List Value)
          → RowFits row
          → Moves
              (prepared c st (stored_stage receiving stored))
              (read row)
              (λ a. prepared c st (stored_stage receiving stored)))
      → Moves
          (prepared c st (stored_stage receiving stored))
          (fetch_loop mysql fuel st read)
          (λ rows. prepared c st (stored_stage receiving stored))
  unfolding fetch_loop
  fetch_loop-Moves zero read hr w h = h
  fetch_loop-Moves (suc fuel) read hr w h =
      stmt_fetch-Moves (next_row mysql (fetch_loop mysql fuel st read) read)
        (λ rows. prepared c st (stored_stage receiving stored)) (λ v k. k)
        (λ row fits.
          next_row-Moves (fetch_loop mysql fuel st read) read row (fetch_loop-Moves fuel read hr)
            (hr row fits))
        w h

  pub fetch_all-Moves :
      {A : Type 0} (read : List Value → Db S A)
      → ((row : List Value)
          → RowFits row
          → Moves
              (prepared c st (stored_stage receiving stored))
              (read row)
              (λ a. prepared c st (stored_stage receiving stored)))
      → Moves
          (prepared c st (stored_stage receiving stored))
          (fetch_all mysql st read)
          (λ rows. prepared c st (stored_stage receiving stored))
  unfolding fetch_all
  fetch_all-Moves read hr w h = fetch_loop-Moves (mysql.rows_left st w.library + 1) read hr w h
