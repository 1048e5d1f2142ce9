-- ===== src/Collector.antt =====
-- internal/service/collector/service.go.
pub mod Options
pub mod Split
pub mod Source
pub mod Chunks
pub mod Remote
pub mod Collect
