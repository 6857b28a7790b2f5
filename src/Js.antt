-- ===== src/Js.antt =====
-- The parts of the JavaScript language and its standard library that the pages use: strings as
-- lists of UTF-16 code units, regular expressions, and JSON values.
pub mod Strings
pub mod Regex
pub mod Json
pub mod Utf8
