-- ===== src/Net.antt =====
-- The parts of Go's package net that the program uses, over lists of bytes.
pub mod Ip
pub mod Mask
pub mod Text
