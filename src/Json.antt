-- ===== src/Json.antt =====
-- ttw/json: the elements, their text, and the reader.
pub mod Value
pub mod Objects
pub mod Print
pub mod Reader
