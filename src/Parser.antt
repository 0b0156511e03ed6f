-- ===== src/Parser.antt =====
-- yaradec/parser.py: the tables of rules, strings, metas and namespaces.
pub mod Structs
pub mod Metas
pub mod Strings
pub mod Rules
pub mod RuleStrings
pub mod Errors
pub mod Records
pub mod MetaWriter
pub mod StringWriter
pub mod SpaceWriter
pub mod RuleWriter
pub mod RoundTrip
