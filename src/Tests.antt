-- ===== src/Tests.antt =====
-- Runs of the theorems at concrete inputs.
mod RouterTests
mod ChecksumTests
mod HelperTests
mod ServiceTests
mod BackendTests
mod LoginTests
mod WebTests
mod DatabaseTests
mod ServerTests
mod StartTests
mod HistoryTests
mod TraceTests
mod AccountTests
