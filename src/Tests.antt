-- ===== src/Tests.antt =====
-- Concrete runs of the program's operations, and the theorems at concrete inputs.
pub mod Data
mod RouterRuns
mod StoreRuns
pub mod UserRuns
pub mod ClientRuns
pub mod RelayRuns
mod ApiRuns
mod PortalRuns
mod ServiceRuns
