-- ===== src/Data.antt =====
-- data/normalization: from recorded messages to trusted books.
pub mod BookStream
pub mod SeenSet
