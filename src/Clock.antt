-- ===== src/Clock.antt =====
-- std::chrono::system_clock: a reading is its count of nanoseconds since the epoch.
use bartimaeus_app.Base.{ℕ}

abbrev pub second : ℕ
second = 1_000_000_000
