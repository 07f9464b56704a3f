-- ===== src/Fota.antt =====
-- Firmware updates over the air: Firmware/src/fota.c, fota.h, fota_tlv.c, fota_tlv.h.
-- Tlv is the encoding of the report and of the response; Response the response itself, Download
-- the image, and Update the exchange with the server and the update that follows it.
pub mod Tlv
pub mod Response
pub mod Download
pub mod Update
