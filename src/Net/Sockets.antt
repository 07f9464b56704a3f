-- ===== src/Net/Sockets.antt =====
-- The table of sockets: which descriptors are valid, and which one a new socket gets.
use air_quality_sensor_node.Base.{
  ℕ, zero, suc, ◌-◌, ◌≤◌, ◌≡◌, ◌≢◌, refl, ap, Bool, false, ◌&&◌, [], ◌∷◌, Bytes, List, leb, length,
  get_elem?, get_elem?_of_lt, none, some, arith, inl, inr, Bool-cases,
}
use air_quality_sensor_node.Base.Libc.{Libc}
use air_quality_sensor_node.Base.Outcome.{Outcome, ok, out_of_bounds, bind-eq-ok}
use air_quality_sensor_node.At.Input.{AtResult}
use air_quality_sensor_node.Modem.{Line, receive}
use air_quality_sensor_node.Net.{Net, Socket, Format, valid_socket, modify, command_text}
use air_quality_sensor_node.Net.Calls.{ask}

pub length-modify :
    (f : Socket → Socket) (ss : List Socket) (i : ℕ) → length (modify f ss i) ≡ length ss
unfolding modify
length-modify f [] i = refl
length-modify f (s ∷ ss) zero = refl
length-modify f (s ∷ ss) (suc i) = ap suc (length-modify f ss i)

pub get_elem?-modify_self :
    (f : Socket → Socket) (ss : List Socket) (i : ℕ) {s : Socket}
    → get_elem? ss i ≡ some s
    → get_elem? (modify f ss i) i ≡ some (f s)
unfolding modify
get_elem?-modify_self f [] i h = cc
get_elem?-modify_self f (s ∷ ss) zero h = cc
get_elem?-modify_self f (s ∷ ss) (suc i) h = get_elem?-modify_self f ss i h

pub get_elem?-modify_ne :
    (f : Socket → Socket) (ss : List Socket) (i j : ℕ)
    → i ≢ j
    → get_elem? (modify f ss i) j ≡ get_elem? ss j
unfolding modify
get_elem?-modify_ne f [] i j h = refl
get_elem?-modify_ne f (s ∷ ss) zero zero h = absurd (h refl)
get_elem?-modify_ne f (s ∷ ss) zero (suc j) h = refl
get_elem?-modify_ne f (s ∷ ss) (suc i) zero h = refl
get_elem?-modify_ne f (s ∷ ss) (suc i) (suc j) h = get_elem?-modify_ne f ss i j (λ e. h (ap suc e))

get_elem?_of_ge : {A : Type 0} (xs : List A) (i : ℕ) → length xs ≤ i → get_elem? xs i ≡ none
get_elem?_of_ge [] i h = refl
get_elem?_of_ge (y ∷ xs) zero h = absurd (omega arith)
get_elem?_of_ge (y ∷ xs) (suc i) h = get_elem?_of_ge xs i (omega arith)

-- The table has seven sockets and `VALID_SOCKET` lets eight descriptors through: it gives a value
-- for every number but 107, for which it reads behind the table.
pub valid_socket_lem :
    (sockets : List Socket)
    → length sockets ≡ 7
    → (valid_socket sockets 107 ≡ out_of_bounds)
      × ((sfd : ℕ) → sfd ≢ 107 → (b : Bool) × (valid_socket sockets sfd ≡ ok b))
unfolding valid_socket
valid_socket_lem sockets h = (
  rw (get_elem?_of_ge sockets 7 (omega arith)),
  λ sfd ne. elim (Bool-cases (leb 100 sfd && leb sfd 107)) [
    | inl e ↦
        let (s, found) = get_elem?_of_lt sockets (sfd - 100) (ground arith) in
        (s.in_use, rw (e, found))
    | inr e ↦ (false, rw e)
  ],
)

module _ {W : Type 0} (libc : Libc) (format : Format) (line : Line W) where
  -- A command changes nothing but the modem.
  pub ask_keeps :
      {R : Type 0} (text : Bytes) (decode : Bytes → Outcome (AtResult × R × Bytes)) (n n1 : Net W)
      (res : AtResult) (r : R)
      → ask libc format line text decode n ≡ ok (res, r, n1)
      → (n1.sockets ≡ n.sockets) × (n1.next_free_port ≡ n.next_free_port)
  unfolding ask
  ask_keeps text decode n n1 res r h =
      let (cmd, _, h1) = bind-eq-ok (command_text text) _ h in
      let ((res', r', w), _, h2) =
        bind-eq-ok (receive libc line decode (line.write cmd n.modem)) _ h1 in
      (cc, cc)
