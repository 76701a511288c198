-- ===== src/Ingestion.antt =====
-- Log ingestion: checkpoints.py, aggregation.py, elk_reader.py and worker.py of backend/ingestion.
pub mod Checkpoint
pub mod Cursor
pub mod Lease
pub mod Aggregation
pub mod Pages
pub mod PageOrder
pub mod Worker
pub mod Progress
pub mod Reads
pub mod Buckets
pub mod Replay
