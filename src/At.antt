-- ===== src/At.antt =====
-- The replies of the SARA N2 modem: Firmware/src/at_commands.c and at_commands.h.
-- Buffer holds the first bytes of a line; Input reads a reply up to its OK, its ERROR or a timeout
-- and calls back for every byte and every line; Address, Socket, Receive and Identity are the
-- callbacks of the commands.
pub mod Buffer
pub mod Input
pub mod Address
pub mod Socket
pub mod Receive
pub mod Identity
