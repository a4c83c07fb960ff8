-- ===== src/Filemap.antt =====
-- scripts/gen-filemap.py: the map from files to the elements that build them.
pub mod Sort
pub mod Contents
pub mod Build
pub mod Entries
pub mod Words
pub mod Listing
pub mod Items
pub mod Colours
pub mod Whole
pub mod Main
pub mod Tests
