-- ===== src/Search.antt =====
-- docs/search/search.js: the search box and the panel of its results.
pub mod Encode
pub mod Results
pub mod Keys
pub mod Box
pub mod Scripts
mod Tests
