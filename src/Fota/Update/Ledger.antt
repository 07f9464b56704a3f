-- ===== src/Fota/Update/Ledger.antt =====
-- The sockets that Firmware/src/fota.c and Firmware/src/main.c have opened and not yet passed to
-- `close`, noted beside the calls of Zephyr. Whether a call of `close` succeeds plays no part here.
use air_quality_sensor_node.Base.{
  ℕ, ◌≡◌, Bool, true, false, List, [], ◌∷◌, ◌==◌, ==_refl, if◌then◌else◌, Option, none, some,
}

-- The socket of fota.c, which has only one at a time, a socket of main.c with its descriptor, or a
-- `close` of a socket that was not open.
pub data Entry : Type 0 where
  update : Entry
  handle : ℕ → Entry
  stray : Entry

abbrev pub same_socket : Entry → Entry → Bool
same_socket update update = true
same_socket (handle i) (handle j) = i == j
same_socket _ _ = false

-- `close` takes the last entry of its socket away.
abbrev pub struck : Entry → List Entry → List Entry
struck e [] = stray ∷ []
struck e (x ∷ xs) = if same_socket e x then xs else x ∷ struck e xs

abbrev pub noted : Option ℕ → List Entry → List Entry
noted none xs = xs
noted (some sock) xs = handle sock ∷ xs

pub struck-handle : (sock : ℕ) (xs : List Entry) → struck (handle sock) (handle sock ∷ xs) ≡ xs
struck-handle sock xs = rw (==_refl sock)

-- The devices with the entries beside them, the last first.
pub record Watch (D : Type 0) : Type 0 where
  pub device : D
  pub entries : List Entry

module _ {D R : Type 0} where
  -- A call that opens and closes nothing.
  abbrev pub unnoted : (D → D × R) → Watch D → Watch D × R
  unnoted call w = let r = call w.device in (record w { device = r.0 }, r.1)
