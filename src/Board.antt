-- ===== src/Board.antt =====
-- Devices of the board behind its buses: Adc is the gas sensor front end (Firmware/src/ads124s08.c),
-- Uart the bridge to the modem (Firmware/src/max14830.c), Gpio the pins (Firmware/src/gpio.c).
pub mod Adc
pub mod Uart
pub mod Gpio
pub mod Sharing
pub mod Humidity
pub mod Setup
