-- ===== src/Lib.antt =====
-- The firmware of the air quality sensor node (Firmware/src): the particle sensor, the gas sensor,
-- the positions, the measurement message, the update messages, the modem with the sockets it
-- carries, and the configuration of its APNs.
--
-- The parts and their files. Opc is opc_n3.c: Opc/Crc the checksum (OPC_calcCRC), Opc/Histogram the
-- decoding of a histogram (decode_historgram, get_uint16_value, get_float_value), Opc/Command the
-- commands over SPI and the sampling (OPC_command, opc_sample, opc_n3_sample_data). Gps/Cache is
-- gps_cache.c, whose calls take the cached fix or the statistics and return them; Gps/Nmea is
-- nmea_valid and Gps/Nmea/Parse nmea_parse of nmealib.c, Gps/Decode gps_std.c and Gps/Receiver
-- rxData of gps.c. Gps/Thread is the interrupt and the thread of gps.c. Board/Adc is ads124s08.c,
-- Board/Uart max14830.c with modem_write of comms.c, Board/Gpio gpio.c and Board/Humidity
-- chipcap2.c; Board/Setup is init_board of init.c with i2c_config.c and spi_config.c, and
-- Board/Sharing watches the SPI bus that two of the devices share. Message is the encoding in
-- messagebuffer.c (encode_firmware_version, mb_encode). Fota/Tlv is fota_tlv.c; Fota/Response is
-- fota_encode_simple_report and fota_decode_simple_response of fota.c, Fota/Download
-- fota_download_image and wait_for_response, with write_firmware_block of flash.c, and Fota/Update
-- init_image, fota_report_version and fota_run. At is at_commands.c: At/Buffer the ten bytes that a
-- line is recognised by, At/Input the reader decode_input, and At/Address, At/Socket, At/Receive
-- and At/Identity the callbacks of the single replies. Modem is the part of comms.c that asks the
-- modem and waits for it; Modem/Urc is its interrupt comms_handle_char, modem_read and
-- urc_threadproc, and Modem/Urc/Delivery runs the two together; Modem/Init is modem_init. Net is
-- n2_offload.c: the table of sockets in Net, the calls in Net/Calls, and offload_recv, which waits
-- for the thread of comms.c, in Net/Recv. Config is config.c, Config/Message and Config/Ping
-- config_message.c. Main is main.c: the round of the main loop in Main, do_the_hetzner_ping in
-- Main/Exchange, the watchdog and the whole of the program in Main/Start. Base holds what they
-- share, and Tests the theorems at concrete inputs.
--
-- How they interact. The loop over the bridge's buffer (Board/Uart) calls the interrupt of
-- Modem/Urc for each byte; the interrupt puts it into one ring buffer for the readers of replies
-- (modem_read) and, inside a notification, into another for the notification thread, whose rounds
-- call the sockets' callback; offload_recv waits for such a call (Net/Recv). A socket call
-- (Net/Calls) writes a command on the line (Modem.Line), and the decoder of its reply (At) reads
-- what the line gives. Config tries the APNs through Modem and is changed by the requests that
-- arrive on a socket. A byte of the GPS goes through Gps/Receiver to Gps/Nmea/Parse, Gps/Decode and
-- Gps/Cache. Message takes the samples of Opc, Gps/Cache and Board/Adc. Main brings the parts
-- together: its state is one world, on which the drivers of Opc and Board, the sockets, the flash
-- and the line to the modem work, and a round samples the devices, sends the message and runs
-- Fota/Update. What the devices do is a parameter.
--
-- How C is read. A call that fails, leaves an array or does not end is a value of Outcome; a read
-- of memory that was never written counts as leaving an array, or what it holds is an argument
-- (`stale`). Integers are natural numbers with their wrap-around written out, and the few signed
-- results are of the type of Base/Int. A `char` has no sign, as on the node's processor. Floats are
-- abstract: the GPS cache only copies them, the decoders of sentences calculate with given
-- operations (Gps/Decode.Floats), the humidity sensor with those of Board/Humidity.Arithmetic, and
-- a histogram's are their four bytes as a number. Texts are lists of bytes without their
-- terminator. A call that holds a mutex or a semaphore from its first access to its last is one
-- step; the interrupt, a call of modem_read and a round of urc_threadproc are steps that run in any
-- order.
--
-- Parameters: Zephyr's SPI, pins and clock (Opc/Command.Drivers, Board/Adc.Bus, Board/Gpio.Pins),
-- the binding of its devices (Board/Setup.Bindings), I2C (Board/Uart.I2c, Board/Humidity.Wire), the
-- UART of the GPS (Gps/Thread.Uart), the sockets, the clock and the watchdog of the main loop
-- (Main.Services, Main/Start.Watchdog), ring buffers and semaphores (Modem/Urc.Kernel), its
-- sockets, CoAP and flash for an update (Fota/Download.Platform, Fota/Update.Reporter) and the size
-- of its bank, the serial line to the modem (Modem.Line), the storage (Config.Nvs), nanopb's
-- decoder and encoder (Message.Encoder), the texts of sprintf and inet_ntop (Net.Format), and
-- isspace and atoi with the part of their documentation that is relied on (Base/Libc.Libc). What
-- the two devices behind Board do is in Board/Adc/Contract, Board/Uart/Contract and the hypotheses
-- of Board/Uart/Receive. The waits of the code are calls of a parameter, and what happens in them
-- is up to it: the conversions of Board/Adc/Contract, the sending of Board/Uart/Contract. Whether
-- k_malloc gives memory is an argument of offload_connect.
--
-- Sockets. Fota/Update/Ledger and the two files Watching put a list beside the state, of the
-- sockets that were opened and not yet passed to `close`, and note every call of socket and close
-- in it, whatever becomes of the call; a `close` of a socket that is not in the list is noted as
-- well. A socket of main.c is noted with its descriptor; fota.c has one at a time, in a local
-- variable, and the model has no descriptor for it.
--
-- The main loop has no end; a run is over the list of what its rounds find, and ends early in a
-- reboot.
--
-- Bounds and fuel. The polls of a command, the queries for an address and the bytes of a sentence
-- are counted down as the code counts them up, 22, 31 and 254. The download takes as fuel the
-- number of blocks, which the server decides; its theorem names how many are enough. The waits of
-- Board/Uart for the bridge and its loop over received bytes end when the bridge says so, and take
-- the number of polls as fuel; their theorems name how many are enough. The wait of offload_recv
-- takes what the other threads do in each of its sleeps, and is out of fuel where they end. Two
-- other loops take fuel: the text encoder, whose counter has 8 bits and for which 256 rounds are
-- enough if it ends at all, and the response decoder, where every round moves the index, so that
-- the length of the payload is enough.
--
-- Not modelled: a modem that never stops sending, since what it sends until modem_read times out is
-- a list (Modem.Line.readable); the creation of the threads, opc_init, which fills an SPI
-- configuration, the logging and dumping, and the server.
pub mod Base
pub mod Opc
pub mod Gps
pub mod At
pub mod Modem
pub mod Net
pub mod Config
pub mod Fota
pub mod Board
pub mod Message
pub mod Main
pub mod Tests
