-- ===== src/Operations.antt =====
-- web/src/hooks/useOperations.ts: toasts for finished operations (`Notify`), the query cache that the
-- event stream is folded into (`Cache`, `Stream`), the socket's life (`Socket`), the paginated
-- history (`History`), and its table and the console of one operation in
-- web/src/pages/OperationsPage.tsx (`Table`, `Console`), and a log while it grows (`Logs`).
pub mod Notify
pub mod Cache
pub mod Stream
pub mod Socket
pub mod History
pub mod Table
pub mod Console
pub mod Logs
mod Tests
