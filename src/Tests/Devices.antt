-- ===== src/Tests/Devices.antt =====
-- The devices of the board and the message at concrete inputs.
use air_quality_sensor_node.Base.{
  ℕ, ◌+◌, ◌*◌, ◌^◌, ◌≡◌, refl, ◌==◌, if◌then◌else◌, [], ◌∷◌, Bytes, codes, length, some, arith,
}
use air_quality_sensor_node.Base.Outcome.{ok}
use air_quality_sensor_node.Board.Uart.{I2c, max_read, read_from_rx_fifo}
use air_quality_sensor_node.Board.Uart.Receive.{read_from_rx_fifo-deliver}
use air_quality_sensor_node.Modem.Urc.{comms_handle_char}
use air_quality_sensor_node.Modem.Urc.Lines.{deliver}
use air_quality_sensor_node.Message.{encode_firmware_version}
use air_quality_sensor_node.Message.Version.{encode_firmware_version_lem}
use air_quality_sensor_node.Tests.Platform.{test_libc}
use air_quality_sensor_node.Tests.Kernel.{test_kernel, idle}

-- A bridge that has received some bytes.
abbrev pop : Bytes → Bytes × ℕ
pop [] = ([], 0)
pop (b ∷ bs) = (bs, b)

abbrev received : I2c Bytes
received = record {
  write = λ d a tx. d;
  write_read =
      λ d a tx. elim tx [ [] ↦ (d, 0) | reg ∷ _ ↦ if reg == 0x12 then (d, length d) else pop d ];
  gpio_pin_read = λ d pin. (d, 1);
  sleep = λ d t. d;
}

read_from_rx_fifo-deliver_example :
    read_from_rx_fifo received 2 0x61 (some (comms_handle_char test_kernel)) (43 ∷ []) idle
    ≡ ok ([], deliver test_kernel (43 ∷ []) idle)
unfolding max_read
read_from_rx_fifo-deliver_example =
    read_from_rx_fifo-deliver received test_kernel (43 ∷ []) 2 (43 ∷ []) [] idle
      (43 ∷ [], 1, [], refl, omega arith, refl, refl) (omega arith)

encode_firmware_version_lem_example :
    encode_firmware_version test_libc.atoi (codes "1.2.34") ≡ 1 * 2 ^ 32 + 2 * 2 ^ 16 + 34
encode_firmware_version_lem_example =
    encode_firmware_version_lem test_libc (codes "1") (codes "2") (codes "34") (refl, tt) (refl, tt)
      (refl, (refl, tt)) (omega arith) (omega arith) (omega arith) (omega arith) (omega arith)
