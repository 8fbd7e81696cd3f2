-- ===== src/Keys/RandomArt.antt =====
-- src/keys/mod.rs: `fingerprint_randomart`. The worm walks over a field of 9 rows and 17 columns; an
-- index out of bounds is a panic.
pub mod Arrays
pub mod Walk
pub mod Picture
pub mod Lines
pub mod Fingerprint
