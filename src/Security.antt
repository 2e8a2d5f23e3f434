-- ===== src/Security.antt =====
-- The input checks of app/utils/security.py, over texts as lists of code points.
pub mod Pattern
pub mod Traversal
pub mod Names
pub mod Filename
mod Tests
