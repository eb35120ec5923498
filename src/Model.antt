-- ===== src/Model.antt =====
-- app/models: the rows of the tables, and what a session sees of them.
pub mod Tables
pub use Tables.*
