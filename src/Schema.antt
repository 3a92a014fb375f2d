-- ===== src/Schema.antt =====
-- The tables of prisma/schema.prisma as lists of rows, and the monad in which a service runs:
-- it reads and writes the tables, and ends with a result or an HTTP exception.
mod Enums
mod Rows
mod Monad
pub use Enums.*
pub use Rows.*
pub use Monad.*
