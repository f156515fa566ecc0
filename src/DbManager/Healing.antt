-- ===== src/DbManager/Healing.antt =====
-- One tick of the healer on its own.
use bartimaeus_app.Base.{
  ℕ, zero, suc, ◌+◌, ◌≤◌, ◌<◌, ◌≡◌, refl, ◌⊎◌, inl, inr, ◌∷◌, Option, none, some, arith, ltb,
  length, Bool-cases, Option-cases,
}
use bartimaeus_app.DbManager.{Connection, DbManager, pool_size, heal, is_full, restore_connection}

-- What a tick makes of the pool `db`.
pub record IsHealed (connect : ℕ → Option Connection) (db db' : DbManager) : Type 0 where
  pub gained : db'.cur_conns + length db.connection_pool ≡ db.cur_conns + length db'.connection_pool
  pub kept : db.cur_conns ≤ db'.cur_conns
  pub bounded : db'.cur_conns ≤ pool_size
  pub complete : (db'.cur_conns ≡ pool_size) ⊎ ((i : ℕ) × (connect i ≡ none))

heal-IsHealed :
    (fuel : ℕ) (connect : ℕ → Option Connection) (attempt : ℕ) (db : DbManager)
    → db.cur_conns ≤ pool_size
    → pool_size < fuel + db.cur_conns
    → (db' : DbManager) × (heal fuel connect attempt db ≡ some db') × IsHealed connect db db'
unfolding heal is_full restore_connection
heal-IsHealed zero connect attempt db b m = absurd (omega arith)
heal-IsHealed (suc fuel) connect attempt db b m = elim (Bool-cases (ltb db.cur_conns pool_size)) [
  | inr full ↦ (
    db,
    rw full refl,
    record { gained = refl; kept = omega arith; bounded = b; complete = inl (ground arith) },
  )
  | inl room ↦ elim (Option-cases (connect attempt)) [
    | inl e ↦ (
      db,
      rw (room, e) refl,
      record { gained = refl; kept = omega arith; bounded = b; complete = inr (attempt, e) },
    )
    | inr (c, e) ↦
        let (db', runs, healed) =
          heal-IsHealed fuel connect (attempt + 1)
            (record { connection_pool = c ∷ db.connection_pool; cur_conns = db.cur_conns + 1 })
            (ground arith) (omega arith) in
        (
          db',
          rw (room, e) runs,
          record {
            gained = omega (arith, healed.gained);
            kept = omega (arith, healed.kept);
            bounded = healed.bounded;
            complete = healed.complete;
          },
        )
  ]
]

-- A tick that starts with at most five connections ends within six tests, whatever
-- createConnection gives. It adds as many connections to the pool as to the count, which stays at
-- five or less, and is five afterwards unless an attempt to connect failed.
tick-IsHealed :
    (connect : ℕ → Option Connection) (db : DbManager)
    → db.cur_conns ≤ pool_size
    → (db' : DbManager) × (heal (pool_size + 1) connect 0 db ≡ some db') × IsHealed connect db db'
tick-IsHealed connect db b = heal-IsHealed (pool_size + 1) connect 0 db b (omega arith)
