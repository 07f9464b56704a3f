-- ===== src/Opc.antt =====
-- The Alphasense OPC-N3 particle counter: Firmware/src/opc_n3.c and opc_n3.h.
-- Crc is `OPC_calcCRC`, Histogram the decoding of a histogram into an `OPC_SAMPLE`.
pub mod Crc
pub mod Histogram
pub mod Command
