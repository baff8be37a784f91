-- ===== src/Json/Reader/RoundTrip.antt =====
-- What `toString` prints and `parser` reads again.
pub mod Pointers
pub mod Plain
pub mod Members
pub mod Steps
pub mod Rounds
pub mod Scalars
pub mod Places
pub mod Values
pub mod Containers
pub mod Elements
pub mod Whole
