-- ===== src/Ingest.antt =====
-- The ingest side (relay/internal/ingest): connections to the PDSs and the events they bring.
pub mod Event
pub mod RecordPath
pub mod Client
pub mod Stream
pub mod Manager
pub mod Content
pub mod AccountFrame
pub mod Serving
mod Examples
