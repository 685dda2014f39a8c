-- ===== src/Session.antt =====
-- Requests against the database (the SQLAlchemy `Session` of backend/app/api/deps.py). An `Action` is
-- the work inside one transaction. A raise before `db.commit()` closes the session and rolls back, so
-- an error carries no database; a handler that commits and then raises returns the error as a value.
-- Row locks make the transactions that touch one order sequential, so a request runs alone.
mod Monad
mod Store
pub use Monad.*
unfoldable pub use Store.*
