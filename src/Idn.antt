-- ===== src/Idn.antt =====
-- Internationalised domain names, src/network/idn.c.
pub mod Utf8
pub mod Punycode
pub mod Host
