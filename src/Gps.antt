-- ===== src/Gps.antt =====
-- Positions: Firmware/src/gps_cache.c, nmealib.c, gps_std.c and the bytes that gps.c receives.
-- Cache keeps the latest fix and the statistics; Nmea tells whether a sentence is valid and, in
-- Nmea/Parse, where its fields begin; Decode reads the fields, and Receiver collects a line, parses
-- it and updates the fix.
pub mod Cache
pub mod Nmea
pub mod Decode
pub mod Receiver
pub mod Thread
