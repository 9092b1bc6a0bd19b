-- ===== src/SearchBox.antt =====
-- docs/search/search.js, `SearchBox`: the search panel of the documentation pages.
-- The state holds the instance variables and what the handlers read and write of the page. A
-- handler that can throw returns an `Outcome`; the statements behind the throw are not run.
pub mod State
pub mod Handlers
pub mod Search
pub mod Events
pub mod Placement
pub mod Panel
pub mod Query
pub mod Menu
pub mod Timers
pub mod Focusing
pub mod Init
mod Tests
