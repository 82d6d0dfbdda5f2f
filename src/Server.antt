-- ===== src/Server.antt =====
-- cmd/server: the HTTP service over the append-only, hash-chained log.
pub mod Model
pub mod Codec
pub mod Chain
pub mod Cursor
pub mod Match
pub mod Window
pub mod Paging
pub mod FileStore
pub mod PostgresStore
pub mod Query
pub mod Auth
pub mod Registry
pub mod Config
pub mod Router
pub mod ClientsCli
pub mod Start
