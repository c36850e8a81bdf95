-- ===== src/Bufio.antt =====
-- server/mqtt/bufio: the buffered reader and writer.
pub mod Reader
pub mod Lines
pub mod Writer
mod Tests
