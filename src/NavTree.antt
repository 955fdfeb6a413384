-- ===== src/NavTree.antt =====
-- docs/navtree.js, `initNavTree`: the navigation tree of the site.
pub mod Entries
pub mod Site
pub mod Paths
pub mod Index
pub mod Goto
pub mod Walk
pub mod Tree
pub mod Session
pub mod Links
mod Tests
