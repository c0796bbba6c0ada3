-- ===== src/Io.antt =====
-- io.c: numbers, strings and headers on the connection.
pub mod Word
pub mod Varint
pub mod Ndx
pub mod SumHead
pub mod Vstring
