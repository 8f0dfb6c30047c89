-- ===== src/Collector.antt =====
-- The recording commands and the token samples (include/collector, src/collector).
pub mod RecordControl
pub mod TokenPublisher
