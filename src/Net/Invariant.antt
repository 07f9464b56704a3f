-- ===== src/Net/Invariant.antt =====
-- What every call keeps of the table of sockets.
use air_quality_sensor_node.Base.{
  ◌++◌, ◌==◌, codes, ℕ, zero, suc, ◌+◌, ◌-◌, ◌%◌, ◌^◌, ◌≡◌, refl, ap, sym, ◌∙◌, Bool, true, false,
  [], ◌∷◌, List, if◌then◌else◌, length, get_elem?, Option, none, some, All, inl, inr, Bool-cases,
}
use air_quality_sensor_node.Base.Libc.{Libc}
use air_quality_sensor_node.Base.Int.{ℤ, pos, eq_int}
use air_quality_sensor_node.Base.Outcome.{out_of_bounds, ok, ◌>>=◌, in_bounds, bind-eq-ok}
use air_quality_sensor_node.At.Input.{AtResult, at_ok, at_error, at_timeout}
use air_quality_sensor_node.At.Receive.{NsorfCtx}
use air_quality_sensor_node.At.Socket.{at_decode, atnsocr_decode}
use air_quality_sensor_node.Modem.{Line}
use air_quality_sensor_node.Net.{
  error, eisconn, done, Net, Socket, SockAddr, Result, Format, free_socket, modify, add_incoming,
  valid_socket, find_free,
}
use air_quality_sensor_node.Net.Calls.{
  socket_of, ask, created, create, offload_socket, closed, close_socket, connect_socket,
  received_from,
}
use air_quality_sensor_node.Net.Sockets.{length-modify, ask_keeps}

some-injective : {A : Type 0} {x y : A} → some x ≡ some y → y ≡ x
some-injective h = cc

-- A connected socket is in use and has an address.
abbrev pub IsAddressed : Socket → Type 0
IsAddressed s =
    s.connected ≡ true → (s.in_use ≡ true) × ((to : SockAddr) × (s.remote_addr ≡ some to))

pub record IsConsistent (ss : List Socket) : Type 0 where
  pub seven : length ss ≡ 7
  pub addressed : All IsAddressed ss

All-modify :
    (f : Socket → Socket) (ss : List Socket) (i : ℕ)
    → ((s : Socket) → get_elem? ss i ≡ some s → IsAddressed s → IsAddressed (f s))
    → All IsAddressed ss
    → All IsAddressed (modify f ss i)
unfolding modify
All-modify f [] i k h = h
All-modify f (s ∷ ss) zero k h = (k s refl h.0, h.1)
All-modify f (s ∷ ss) (suc i) k h = (h.0, All-modify f ss i k h.1)

pub modify-IsConsistent :
    (f : Socket → Socket) (ss : List Socket) (i : ℕ)
    → ((s : Socket) → get_elem? ss i ≡ some s → IsAddressed s → IsAddressed (f s))
    → IsConsistent ss
    → IsConsistent (modify f ss i)
modify-IsConsistent f ss i k h = record {
  seven = length-modify f ss i ∙ h.seven;
  addressed = All-modify f ss i k h.addressed;
}

pub add_incoming-IsConsistent :
    (fd : ℤ) (bytes : ℕ) (ss : List Socket)
    → IsConsistent ss
    → IsConsistent (add_incoming fd bytes ss)
unfolding add_incoming
add_incoming-IsConsistent fd bytes ss h = record {
  seven = same ss ∙ h.seven;
  addressed = go ss h.addressed;
}
  where
    same : (ss : List Socket) → length (add_incoming fd bytes ss) ≡ length ss
    same [] = refl
    same (s ∷ ss) = ap suc (same ss)

    one :
        (s : Socket) (b : Bool)
        → IsAddressed s
        → IsAddressed
            (if b then record s { incoming_len = (s.incoming_len + bytes) % 2 ^ 32 } else s)
    one s true h = h
    one s false h = h

    go : (ss : List Socket) → All IsAddressed ss → All IsAddressed (add_incoming fd bytes ss)
    go [] h = h
    go (s ∷ ss) h = (one s (eq_int s.id fd) h.0, go ss h.1)

module _ {W : Type 0} (libc : Libc) (format : Format) (line : Line W) where
  created-IsConsistent :
      (fd : ℕ) (res : AtResult) (id : ℤ) (n n' : Net W) (r : Result)
      → IsConsistent n.sockets
      → created libc format line fd res id n ≡ (r, n')
      → IsConsistent n'.sockets
  unfolding created
  created-IsConsistent fd at_ok id n n' r h e =
      let table : n'.sockets ≡ modify (λ s. record s { id = id; in_use = true }) n.sockets fd =
        cc in
      rw table (modify-IsConsistent _ n.sockets fd (λ s _ a c. (refl, (a c).1)) h)
  created-IsConsistent fd at_error id n n' r h e = rw (ap (λ x. x.1) (sym e)) h
  created-IsConsistent fd at_timeout id n n' r h e = rw (ap (λ x. x.1) (sym e)) h

  create-IsConsistent :
      (o : Option ℕ) (n n' : Net W) (r : Result)
      → IsConsistent n.sockets
      → create libc format line o n ≡ ok (r, n')
      → IsConsistent n'.sockets
  unfolding create
  create-IsConsistent none n n' r h e = let same : n' ≡ n = cc in rw same h
  create-IsConsistent (some fd) n n' r h e =
      let text =
        codes "AT+NSOCR=\"DGRAM\",17," ++ format.print_int (pos n.next_free_port) ++ codes ",1\r" in
      let n1 : Net W = record n {
        sockets = modify (λ s. record s { local_port = n.next_free_port }) n.sockets fd;
      } in
      let ((res, id, n2), asked, e1) =
        bind-eq-ok (ask libc format line text (atnsocr_decode libc) n1) _ e in
      let (same, _) = ask_keeps libc format line text (atnsocr_decode libc) n1 n2 res id asked in
      let h1 : IsConsistent n2.sockets =
        rw same (modify-IsConsistent _ n.sockets fd (λ s _ a. a) h) in
      let e2 : created libc format line fd res id n2 ≡ (r, n') = cc in
      created-IsConsistent fd res id n2 n' r h1 e2

  pub socket-IsConsistent :
      (inet dgram udp : Bool) (n n' : Net W) (r : Result)
      → IsConsistent n.sockets
      → offload_socket libc format line inet dgram udp n ≡ ok (r, n')
      → IsConsistent n'.sockets
  unfolding offload_socket
  socket-IsConsistent false dgram udp n n' r h e = let same : n' ≡ n = cc in rw same h
  socket-IsConsistent true false udp n n' r h e = let same : n' ≡ n = cc in rw same h
  socket-IsConsistent true true false n n' r h e = let same : n' ≡ n = cc in rw same h
  socket-IsConsistent true true true n n' r h e =
      create-IsConsistent (find_free n.sockets) n n' r h e

  closed-IsConsistent :
      (fd : ℕ) (res : AtResult) (n n' : Net W) (r : Result)
      → IsConsistent n.sockets
      → closed libc format line fd res n ≡ (r, n')
      → IsConsistent n'.sockets
  unfolding closed
  closed-IsConsistent fd at_ok n n' r h e =
      let table : n'.sockets ≡ modify (λ s. free_socket) n.sockets fd = cc in
      rw table (modify-IsConsistent _ n.sockets fd (λ s _ a c. cc) h)
  closed-IsConsistent fd at_error n n' r h e = rw (ap (λ x. x.1) (sym e)) h
  closed-IsConsistent fd at_timeout n n' r h e = rw (ap (λ x. x.1) (sym e)) h

  pub close_socket-IsConsistent :
      (fd : ℕ) (o : Option Socket) (n n' : Net W) (r : Result)
      → IsConsistent n.sockets
      → close_socket libc format line fd o n ≡ ok (r, n')
      → IsConsistent n'.sockets
  unfolding close_socket
  close_socket-IsConsistent fd none n n' r h e = let same : n' ≡ n = cc in rw same h
  close_socket-IsConsistent fd (some s) n n' r h e =
      let text = codes "AT+NSOCL=" ++ format.print_int s.id ++ codes "\r" in
      let ((res, u, n1), asked, e1) =
        bind-eq-ok (ask libc format line text (at_decode libc) n) _ e in
      let (same, _) = ask_keeps libc format line text (at_decode libc) n n1 res u asked in
      let h1 : IsConsistent n1.sockets = rw same h in
      let e2 : closed libc format line fd res n1 ≡ (r, n') = cc in
      closed-IsConsistent fd res n1 n' r h1 e2

  -- The socket that a valid descriptor names is that of the table.
  pub socket_of-some :
      (n : Net W) (sfd : ℕ) (s : Socket)
      → socket_of libc format line n sfd ≡ ok (some s)
      → get_elem? n.sockets (sfd - 100) ≡ some s
  unfolding socket_of
  socket_of-some n sfd s e =
      let (valid, _, e1) = bind-eq-ok (valid_socket n.sockets sfd) _ e in of_valid valid e1
    where
      of_found :
          (o : Option Socket)
          → ((in_bounds o >>= λ s'. ok (some s')) >>= λ sock. ok sock) ≡ ok (some s)
          → o ≡ some s
      of_found none e = cc
      of_found (some s') e = cc

      of_valid :
          (valid : Bool)
          → ((if valid
                then (in_bounds (get_elem? n.sockets (sfd - 100)) >>= λ s'. ok (some s'))
                else ok none)
              >>= λ sock. ok sock)
            ≡ ok (some s)
          → get_elem? n.sockets (sfd - 100) ≡ some s
      of_valid false e = cc
      of_valid true e = of_found (get_elem? n.sockets (sfd - 100)) e

  pub connect_socket-IsConsistent :
      (fd : ℕ) (to : SockAddr) (memory : Bool) (o : Option Socket) (n n' : Net W) (r : Result)
      → ((s : Socket) → o ≡ some s → get_elem? n.sockets fd ≡ some s)
      → IsConsistent n.sockets
      → connect_socket libc format line fd to memory o n ≡ ok (r, n')
      → IsConsistent n'.sockets
  unfolding connect_socket
  connect_socket-IsConsistent fd to memory none n n' r at h e =
      let same : n ≡ n' = cc in rw (sym same) h
  connect_socket-IsConsistent fd to false (some s) n n' r at h e = elim (Bool-cases s.in_use) [
    | inl used ↦ let never : out_of_bounds ≡ ok (r, n') = rw used at e in absurd (cc)
    | inr unused ↦
        let kept : ok (error eisconn, n) ≡ ok (r, n') = rw unused at e in
        let same : n ≡ n' = cc in rw (sym same) h
  ]
  connect_socket-IsConsistent fd to true (some s) n n' r at h e = elim (Bool-cases s.in_use) [
    | inl used ↦
        let f : Socket → Socket = λ s'. record s' { connected = true; remote_addr = some to } in
        let next : Net W = record n { sockets = modify f n.sockets fd } in
        let done_so : ok (done 0, next) ≡ ok (r, n') = rw used at e in
        let same : next ≡ n' = cc in
        rw (sym same) (
          modify-IsConsistent f n.sockets fd
            (λ s' found a c. (rw (some-injective (sym (at s refl) ∙ found)) used, (to, refl))) h)
    | inr unused ↦
        let kept : ok (error eisconn, n) ≡ ok (r, n') = rw unused at e in
        let same : n ≡ n' = cc in rw (sym same) h
  ]

  pub received-IsConsistent :
      (fd : ℕ) (res : AtResult) (c : NsorfCtx) (n n' : Net W) (r : Result) (got : Option NsorfCtx)
      → IsConsistent n.sockets
      → received_from libc format line fd res c n ≡ (r, got, n')
      → IsConsistent n'.sockets
  unfolding received_from
  received-IsConsistent fd at_ok c n n' r got h e = elim (Bool-cases (c.received == 0)) [
    | inl nothing ↦ rw (ap (λ x. x.2.sockets) (sym (rw nothing at e))) h
    | inr some_bytes ↦
        rw (ap (λ x. x.2.sockets) (sym (rw some_bytes at e)))
          (modify-IsConsistent _ n.sockets fd (λ s _ a. a) h)
  ]
  received-IsConsistent fd at_error c n n' r got h e = rw (ap (λ x. x.2) (sym e)) h
  received-IsConsistent fd at_timeout c n n' r got h e = rw (ap (λ x. x.2) (sym e)) h
