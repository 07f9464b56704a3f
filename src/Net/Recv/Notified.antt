-- ===== src/Net/Recv/Notified.antt =====
-- When `offload_recv` of Firmware/src/n2_offload.c comes back.
use air_quality_sensor_node.Base.{
  ℕ, zero, suc, ◌+◌, ◌-◌, ◌%◌, ◌^◌, ◌<◌, ◌≡◌, ap, ◌∙◌, true, false, [], ◌∷◌, ◌++◌, List, ◌==◌,
  get_elem?, Option, none, some, arith,
}
use air_quality_sensor_node.Base.Libc.{Libc}
use air_quality_sensor_node.Base.Int.{ℤ, pos, negsuc, eq_int}
use air_quality_sensor_node.Base.Outcome.{ok}
use air_quality_sensor_node.Modem.{Line}
use air_quality_sensor_node.Net.{Net, Socket, would_block, Format, add_incoming}
use air_quality_sensor_node.Net.Calls.{socket_of, offload_recvfrom, receive_cb}
use air_quality_sensor_node.Net.Recv.{wait_for_data, on_calls, recv_on, offload_recv}

eq_int_refl : (i : ℤ) → eq_int i i ≡ true
eq_int_refl (pos n) = ground arith
eq_int_refl (negsuc n) = ground arith

add_incoming_self :
    (ss : List Socket) (i bytes : ℕ) (s : Socket)
    → get_elem? ss i ≡ some s
    → get_elem? (add_incoming s.id bytes ss) i
      ≡ some (record s { incoming_len = (s.incoming_len + bytes) % 2 ^ 32 })
unfolding add_incoming
add_incoming_self [] i bytes s e = cc
add_incoming_self (x ∷ ss) zero bytes s e = let same : x ≡ s = cc in rw (same, eq_int_refl s.id)
add_incoming_self (x ∷ ss) (suc i) bytes s e = add_incoming_self ss i bytes s e

module _ {W : Type 0} where
  -- From `n` to `n'` the socket has no data behind any of the sleeps.
  abbrev pub Quiet : List (Net W → Net W) → ℕ → Net W → Net W → Type 0
  Quiet [] fd n n' = n ≡ n'
  Quiet (others ∷ later) fd n n' =
      (s : Socket) × (get_elem? (others n).sockets fd ≡ some s)
      × (s.incoming_len ≡ 0)
      × Quiet later fd (others n) n'

  wait_for_data-some :
      (sleeps : List (Net W → Net W)) (fd count : ℕ) (n : Net W)
      → 0 < count
      → wait_for_data sleeps fd count n ≡ ok n
  unfolding wait_for_data
  wait_for_data-some [] fd count n h = ground arith
  wait_for_data-some (others ∷ later) fd count n h =
      let full : (count == 0) ≡ false = ground arith in rw full

  wait_for_data-Quiet :
      (quiet later : List (Net W → Net W)) (others : Net W → Net W) (fd : ℕ) (n n' : Net W)
      (s : Socket)
      → Quiet quiet fd n n'
      → get_elem? (others n').sockets fd ≡ some s
      → 0 < s.incoming_len
      → wait_for_data (quiet ++ others ∷ later) fd 0 n ≡ ok (others n')
  unfolding wait_for_data
  wait_for_data-Quiet [] later others fd n n' s h found some_data =
      rw (h, found) (wait_for_data-some later fd s.incoming_len (others n') some_data)
  wait_for_data-Quiet (other ∷ quiet) later others fd n n' s (s1, found1, empty, h) found
        some_data =
      rw (found1, empty)
        (wait_for_data-Quiet quiet later others fd (other n) n' s h found some_data)

module _ {W : Type 0} (libc : Libc) (format : Format) (line : Line W) where
  -- On a connected socket without data: with MSG_DONTWAIT the call fails at once and changes nothing;
  -- without it, however many sleeps pass without data, the first notification of 1 to 2147483647
  -- bytes for the socket ends the wait, and the call is that of `recvfrom` on a socket with so
  -- many bytes.
  pub offload_recv_notified :
      (sfd max_len bytes : ℕ) (n n' : Net W) (s s' : Socket) (quiet later : List (Net W → Net W))
      → socket_of libc format line n sfd ≡ ok (some s)
      → s.connected ≡ true
      → s.incoming_len ≡ 0
      → Quiet quiet (sfd - 100) n n'
      → get_elem? n'.sockets (sfd - 100) ≡ some s'
      → s'.incoming_len ≡ 0
      → 0 < bytes
      → bytes < 2147483648
      → let notified = on_calls libc format line ((s'.id, pos bytes) ∷ []) in
        (offload_recv libc format line later sfd max_len true n ≡ ok (would_block, none, n))
        × (offload_recv libc format line (quiet ++ notified ∷ later) sfd max_len false n
            ≡ offload_recvfrom libc format line sfd max_len (notified n'))
        × (get_elem? (notified n').sockets (sfd - 100) ≡ some (record s' { incoming_len = bytes }))
  unfolding offload_recv recv_on on_calls receive_cb
  offload_recv_notified sfd max_len bytes n n' s s' quiet later found connected empty h found'
        empty' some_bytes few =
      let notified = on_calls libc format line ((s'.id, pos bytes) ∷ []) in
      let whole : (s'.incoming_len + bytes % 4294967296) % 4294967296 ≡ bytes = omega arith in
      let told : get_elem? (notified n').sockets (sfd - 100)
          ≡ some (record s' { incoming_len = bytes }) =
        add_incoming_self n'.sockets (sfd - 100) (bytes % 4294967296) s' found'
        ∙ ap (λ (k : ℕ). (let t : Option Socket = some (record s' { incoming_len = k }) in t))
            whole in
      let waited =
        wait_for_data-Quiet quiet later notified (sfd - 100) n n'
          (record s' { incoming_len = bytes }) h told some_bytes in
      (rw (found, connected, empty), rw (found, connected, empty, waited), told)
