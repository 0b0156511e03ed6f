-- ===== src/RePattern.antt =====
-- yaradec/repattern.py: the regexp bytecode and its rendering.
pub mod Decode
pub mod Programs
pub mod Writer
pub mod Boundaries
pub mod Segments
pub mod CharClass
pub mod ClassMeaning
pub mod Hex
pub mod Pieces
pub mod PieceMeaning
pub mod PieceSplit
pub mod Regex
pub mod Listing
pub mod SegmentWriter
pub mod RegexTests
