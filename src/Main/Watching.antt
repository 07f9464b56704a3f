-- ===== src/Main/Watching.antt =====
-- The program of Firmware/src/main.c in any surroundings, with the sockets that are opened and closed
-- noted beside them.
use air_quality_sensor_node.Base.{ℕ, ◌≡◌, refl, sym, ap, ◌∙◌, List, ◌∷◌, Option, none, some}
use air_quality_sensor_node.Base.Libc.{Libc}
use air_quality_sensor_node.Base.Outcome.{ok}
use air_quality_sensor_node.Modem.{Line}
use air_quality_sensor_node.Modem.Untouched.{LineKeeps}
use air_quality_sensor_node.Opc.Command.{Drivers}
use air_quality_sensor_node.Board.Adc.{Bus}
use air_quality_sensor_node.Board.Humidity.{Wire}
use air_quality_sensor_node.Config.{Nvs}
use air_quality_sensor_node.Fota.Response.{FotaResponse}
use air_quality_sensor_node.Fota.Update.Ledger.{Entry, handle, struck, noted, Watch, unnoted}
use air_quality_sensor_node.Fota.Update.Watching.{watched, watched_reporter, watching}
use air_quality_sensor_node.Main.{Services, Surroundings, Node, Found, goes_on}
use air_quality_sensor_node.Main.Sockets.{Accounted}
use air_quality_sensor_node.Main.Exchange.{ping_server}
use air_quality_sensor_node.Main.Exchange.Sockets.{
  AlwaysEncodes, left_open, ping_of, ping_server-sockets,
}
use air_quality_sensor_node.Main.Start.{run_node}
use air_quality_sensor_node.Main.Start.Sockets.{run_node-sockets}

module _ {W : Type 0} where
  abbrev pub watched_socket : W × Option ℕ → List Entry → Watch W × Option ℕ
  watched_socket r xs = (record { device = r.0; entries = noted r.1 xs }, r.1)

  abbrev pub watched_services : Services W → Services (Watch W)
  watched_services v = record {
    socket = λ w. watched_socket (v.socket w.device) w.entries;
    close = λ sock w. record {
      device = v.close sock w.device;
      entries = struck (handle sock) w.entries;
    };
    sendto = λ sock addr bytes w. unnoted (v.sendto sock addr bytes) w;
    recvfrom = λ sock size w. unnoted (v.recvfrom sock size) w;
    net_addr_pton = v.net_addr_pton;
    k_sleep = λ t w. record w { device = v.k_sleep t w.device };
    k_uptime_get = λ w. v.k_uptime_get w.device;
    wdt_feed = λ w. record w { device = v.wdt_feed w.device };
  }

  abbrev watched_drivers : Drivers W → Drivers (Watch W)
  watched_drivers h = record {
    spi_transceive = λ w tx rx. unnoted (λ d. h.spi_transceive d tx rx) w;
    digital_write = λ w pin value. record w { device = h.digital_write w.device pin value };
    sleep = λ w t. record w { device = h.sleep w.device t };
    usleep = λ w t. record w { device = h.usleep w.device t };
  }

  abbrev watched_bus : Bus W → Bus (Watch W)
  watched_bus b = record {
    transceive = λ w tx rx. unnoted (λ d. b.transceive d tx rx) w;
    write = λ w tx. record w { device = b.write w.device tx };
    digital_write = λ w pin value. record w { device = b.digital_write w.device pin value };
    gpio_pin_write = λ w pin value. record w { device = b.gpio_pin_write w.device pin value };
    sleep = λ w t. record w { device = b.sleep w.device t };
  }

  abbrev watched_wire : Wire W → Wire (Watch W)
  watched_wire i = record {
    i2c_write = λ a tx w. record w { device = i.i2c_write a tx w.device };
    i2c_read = λ a size w. unnoted (i.i2c_read a size) w;
  }

  abbrev watched_nvs : Nvs W → Nvs (Watch W)
  watched_nvs v = record {
    nvs_read = λ w. v.nvs_read w.device;
    nvs_write = λ c w. record w { device = v.nvs_write c w.device };
  }

  abbrev pub watched_line : Line W → Line (Watch W)
  watched_line l = record {
    write = λ cmd w. record w { device = l.write cmd w.device };
    readable = λ w. l.readable w.device;
    left_unread = λ rest w. record w { device = l.left_unread rest w.device };
    sleep = λ t w. record w { device = l.sleep t w.device };
  }

  abbrev pub watched_surroundings : {F : Type 0} → Surroundings W F → Surroundings (Watch W) F
  watched_surroundings s = record {
    services = watched_services s.services;
    drivers = watched_drivers s.drivers;
    bus = watched_bus s.bus;
    wire = watched_wire s.wire;
    arithmetic = s.arithmetic;
    encoder = s.encoder;
    nvs = watched_nvs s.nvs;
    pb_decode = s.pb_decode;
    pb_encode_ping = s.pb_encode_ping;
    platform = watched s.platform s.reporter;
    reporter = watched_reporter s.platform s.reporter;
    flash_bank_size = s.flash_bank_size;
    build = s.build;
    client_version = s.client_version;
    imei = s.imei;
  }

  watched_socket-none :
      (r : W × Option ℕ) (xs : List Entry) (w' : Watch W)
      → watched_socket r xs ≡ (w', none)
      → w'.entries ≡ xs
  watched_socket-none (w, none) xs w' e =
      let same : record { device = w; entries = xs } ≡ w' = cc in rw (sym same)
  watched_socket-none (w, some sock) xs w' e = cc

  watched_socket-some :
      (r : W × Option ℕ) (xs : List Entry) (w' : Watch W) (sock : ℕ)
      → watched_socket r xs ≡ (w', some sock)
      → w'.entries ≡ handle sock ∷ xs
  watched_socket-some (w, none) xs w' sock e = cc
  watched_socket-some (w, some sock') xs w' sock e =
      let same : record { device = w; entries = handle sock' ∷ xs } ≡ w' = cc in
      let this : sock' ≡ sock = cc in
      sym (ap (λ (v : Watch W). v.entries) same) ∙ ap (λ (i : ℕ). handle i ∷ xs) this

module _ {W F : Type 0} (s : Surroundings W F) where
  accounted : Accounted (watched_surroundings s) (watching s.platform s.reporter)
  accounted = record {
    sockets-none = λ w w' e. watched_socket-none (s.services.socket w.device) w.entries w' e;
    sockets-some =
        λ w w' sock e. watched_socket-some (s.services.socket w.device) w.entries w' sock e;
    sockets-shut = λ sock w. refl;
    sockets-sendto = λ sock addr bytes w. refl;
    sockets-recvfrom = λ sock size w. refl;
    sockets-sleep = λ t w. refl;
    sockets-feed = λ w. refl;
    drivers_keep = record {
      transceive_keeps = λ d tx rx. refl;
      write_keeps = λ d pin value. refl;
      sleep_keeps = λ d t. refl;
      usleep_keeps = λ d t. refl;
    };
    bus_keeps = record {
      transceive_keeps = λ d tx rx. refl;
      write_keeps = λ d tx. refl;
      pin_keeps = λ d pin value. refl;
      sleep_keeps = λ d t. refl;
    };
    sockets-i2c_write = λ a tx w. refl;
    sockets-i2c_read = λ a size w. refl;
    sockets-boot_write_img_confirmed = λ w. refl;
    sockets-nvs_write = λ c w. refl;
  }

  watched_line-keeps :
      (line : Line W) → LineKeeps (watched_line line) (watching s.platform s.reporter).sockets
  watched_line-keeps line = record {
    write_keeps = λ cmd w. refl;
    left_unread_keeps = λ rest w. refl;
    sleep_keeps = λ t w. refl;
  }

  -- In any surroundings, whatever the modem, the servers and the devices answer, to `close` too, and if a
  -- message to the configuration server can always be encoded: after the start of the program and any
  -- number of rounds of the main loop that go on, `close` has been called once for each socket that was
  -- opened since, those of main.c by their descriptors, except for one socket of main.c, and for no
  -- other socket.
  pub run_node-closes :
      (libc : Libc) (line : Line W) (fuel : ℕ) (stale : FotaResponse) (founds : List (Found F))
      (n n' : Node (Watch W) F)
      → AlwaysEncodes s
      → run_node (watched_surroundings s) libc (watched_line line) fuel stale founds n
        ≡ ok (goes_on n')
      → (sock : ℕ) × (n'.world.entries ≡ handle sock ∷ n.world.entries)
  run_node-closes libc line fuel stale founds n n' encodes e =
      run_node-sockets (watched_surroundings s) (watching s.platform s.reporter) accounted libc
        (watched_line line) (watched_line-keeps line) fuel stale founds n n' encodes e

  -- In any surroundings, whatever the server sends and however the calls come out, those of `close` among
  -- them: when the exchange with the configuration server comes back, `close` has been called once
  -- for the descriptor of its socket, and for no other socket; where the message to the server could
  -- not be encoded, it has not been called.
  pub ping_server-closes :
      (n n' : Node (Watch W) F) (w : Watch W) (sock : ℕ)
      → watched_socket (s.services.socket n.world.device) n.world.entries ≡ (w, some sock)
      → ping_server (watched_surroundings s) (w, some sock) n ≡ ok (goes_on n')
      → n'.world.entries ≡ left_open (ping_of (watched_surroundings s) w n) sock n.world.entries
  ping_server-closes n n' w sock o e =
      ping_server-sockets (watched_surroundings s) (watching s.platform s.reporter) accounted n n' w
        sock o e
