-- ===== src/Scanner.antt =====
-- internal/scanner/scanner.go: from article headers to parts, forwards and backwards.
pub mod Ingest
pub mod Forward
pub mod Backfill
