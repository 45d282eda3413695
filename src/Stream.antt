-- ===== src/Stream.antt =====
-- core/stream_logging.py: the two buffers that keep the output of a process bounded.
pub mod Drop
pub mod Tail
pub mod Lines
