-- ===== src/Tests.antt =====
-- Concrete runs of the program's parts.
pub mod StoreRuns
pub mod ServiceRuns
pub mod LimitRuns
pub mod CoreRuns
pub mod SealRuns
pub mod ConfigRuns
pub mod PoolRuns
pub mod SqliteRuns
pub mod ApiRuns
pub mod ExportRuns
pub mod LoadRuns
pub mod LinkRuns
pub mod ProfileRuns
