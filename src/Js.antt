-- ===== src/Js.antt =====
-- The parts of the JavaScript standard library that the source uses.
pub mod Text
pub mod Number
pub mod Map
pub mod Regex
pub mod Json
pub mod Sort
