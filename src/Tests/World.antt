-- ===== src/Tests/World.antt =====
-- A world for the program: devices, a modem and servers that answer.
use air_quality_sensor_node.Base.{ℕ, ◌+◌, ◌-◌, true, [], ◌∷◌, none, some, codes}
use air_quality_sensor_node.Base.Int.{pos}
use air_quality_sensor_node.Modem.{Line}
use air_quality_sensor_node.Opc.Command.{Drivers}
use air_quality_sensor_node.Board.Adc.{Bus}
use air_quality_sensor_node.Main.{Services, Surroundings}
use air_quality_sensor_node.Tests.Apn.{address_reply}
use air_quality_sensor_node.Tests.Download.{willing, reporting, built}

-- The state counts the sockets that were opened; `close` fails, no request arrives, and the node has
-- been up for a minute.
abbrev pub services : Services ℕ
services = record {
  socket = λ w. (w + 1, some w);
  close = λ sock w. w;
  sendto = λ sock addr bytes w. (w, true);
  recvfrom = λ sock size w. (w, none);
  net_addr_pton = λ text. some 1;
  k_sleep = λ t w. w;
  k_uptime_get = λ w. 60000;
  wdt_feed = λ w. w;
}

abbrev pub drivers : Drivers ℕ
drivers = record {
  spi_transceive = λ d tx rx. (d, 0xF3);
  digital_write = λ d pin value. d;
  sleep = λ d t. d;
  usleep = λ d t. d;
}

abbrev pub bus : Bus ℕ
bus = record {
  transceive = λ d tx rx. (d, rx);
  write = λ d tx. d;
  digital_write = λ d pin value. d;
  gpio_pin_write = λ d pin value. d;
  sleep = λ d t. d;
}

-- Floats are numbers here.
abbrev pub surroundings : Surroundings ℕ ℕ
surroundings = record {
  services = services;
  drivers = drivers;
  bus = bus;
  wire = record { i2c_write = λ a tx d. d; i2c_read = λ a size d. (d, none) };
  arithmetic = record {
    from_nat = λ n. n;
    plus = λ a b. a + b;
    minus = λ a b. a - b;
    times = λ a b. a;
    over = λ a b. a;
  };
  encoder = record {
    atoi = λ text. pos 0;
    atoll = λ text. pos 0;
    float_to_uint32 = λ f. f;
    pb_encode = λ max sample. (1 ∷ 2 ∷ [], true);
  };
  nvs = record { nvs_read = λ f. none; nvs_write = λ c f. f };
  pb_decode = λ bytes. none;
  pb_encode_ping = λ max ping. (1 ∷ [], true);
  platform = willing;
  reporter = reporting;
  flash_bank_size = 1000;
  build = built;
  client_version = codes "1.0.0";
  imei = codes "123";
}

abbrev pub attached : Line ℕ
attached = record {
  write = λ cmd w. w;
  readable = λ w. address_reply;
  left_unread = λ rest w. w;
  sleep = λ t w. w;
}
