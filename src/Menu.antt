-- ===== src/Menu.antt =====
-- docs/menu.js: the menu of the pages.
pub mod Tree
pub mod Markup
pub mod Nesting
pub mod Layout
pub mod SearchMarkup
pub mod Resizing
mod Tests
