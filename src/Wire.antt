-- ===== src/Wire.antt =====
-- manager/src/WireWriter.cpp and manager/src/WireReader.cpp: values at fixed little-endian offsets
-- of a zero-filled buffer, and text in NUL-padded fields.
pub mod Writer
pub mod Reader
pub mod Splice
pub mod Bits
pub mod Words
pub mod Texts
pub mod Utf8
pub mod Fields
pub mod Stored
pub mod Rows
