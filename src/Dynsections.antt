-- ===== src/Dynsections.antt =====
-- docs/dynsections.js: sections of a page that fold, and the table of directories.
pub mod Section
pub mod Directory
pub mod Stripes
pub mod Levels
pub mod Folders
pub mod Reopen
mod Tests
