-- ===== src/Results.antt =====
-- docs/search/search.js, `SearchResults`: the page in the results frame.
pub mod Tree
pub mod Walk
pub mod Filter
pub mod Shown
pub mod Keys
pub mod Moves
pub mod Arrows
pub mod Press
pub mod Inside
pub mod Create
pub mod Created
mod Tests
