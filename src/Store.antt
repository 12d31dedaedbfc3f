-- ===== src/Store.antt =====
-- The database behind the services (`PrismaService`). A table is the list of its rows.
mod Client
mod Listed
mod Keys
mod Queries
mod Constraints
mod Steps
pub use Client.*
pub use Listed.*
pub use Keys.*
pub use Queries.*
pub use Constraints.*
pub use Steps.*
