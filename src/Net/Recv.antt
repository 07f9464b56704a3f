-- ===== src/Net/Recv.antt =====
-- `offload_recv` of Firmware/src/n2_offload.c, which waits until the thread of comms.c has told the
-- sockets of data. `List (Net W → Net W)` is what the other threads do to the sockets in each of
-- the sleeps; the loop that goes on when the list is used up is out of fuel.
pub mod Notified
use air_quality_sensor_node.Base.{
  ℕ, ◌-◌, Bool, not, ◌&&◌, [], ◌∷◌, List, ◌==◌, if◌then◌else◌, get_elem?, Option, none, some,
}
use air_quality_sensor_node.Base.Libc.{Libc}
use air_quality_sensor_node.Base.Int.{to_unsigned}
use air_quality_sensor_node.Base.Outcome.{Outcome, ok, out_of_fuel, ◌>>=◌, in_bounds}
use air_quality_sensor_node.At.Receive.{NsorfCtx}
use air_quality_sensor_node.Modem.{Line}
use air_quality_sensor_node.Modem.Urc.{Call}
use air_quality_sensor_node.Net.{Net, Socket, einval, Result, would_block, error, Format}
use air_quality_sensor_node.Net.Calls.{socket_of, offload_recvfrom, receive_cb}

module _ {W : Type 0} where
  -- The loop, with `curcount`; it gives the sockets as they are behind it.
  unfoldable pub wait_for_data : List (Net W → Net W) → ℕ → ℕ → Net W → Outcome (Net W)
  wait_for_data [] fd curcount n = if curcount == 0 then out_of_fuel else ok n
  wait_for_data (others ∷ later) fd curcount n =
      let again = (do
        s ← in_bounds (get_elem? (others n).sockets fd)
        wait_for_data later fd s.incoming_len (others n)) in
      if curcount == 0 then again else ok n

module _ {W : Type 0} (libc : Libc) (format : Format) (line : Line W) where
  -- The thread's calls of `recv_cb`, which is `receive_cb`; the second argument becomes a `size_t`.
  unfoldable pub on_calls : List Call → Net W → Net W
  on_calls [] n = n
  on_calls (call ∷ calls) n =
      on_calls calls (receive_cb libc format line call.0 (to_unsigned 32 call.1) n)

  unfoldable pub recv_on :
      List (Net W → Net W)
      → ℕ
      → ℕ
      → Bool
      → Option Socket
      → Net W
      → Outcome (Result × Option NsorfCtx × Net W)
  unfolding wait_for_data
  recv_on sleeps sfd max_len dontwait none n = ok (error einval, none, n)
  recv_on sleeps sfd max_len dontwait (some s) n =
      let received = (do
        n1 ← wait_for_data sleeps (sfd - 100) s.incoming_len n
        offload_recvfrom libc format line sfd max_len n1) in
      if not s.connected
      then ok (error einval, none, n)
      else if (s.incoming_len == 0) && dontwait
      then ok (would_block, none, n)
      else received

  -- `dontwait` is MSG_DONTWAIT among the flags; `max_len` is below 2 ^ 15, since `offload_recvfrom`
  -- takes it as a `short int`.
  unfoldable pub offload_recv :
      List (Net W → Net W) → ℕ → ℕ → Bool → Net W → Outcome (Result × Option NsorfCtx × Net W)
  unfolding recv_on
  offload_recv sleeps sfd max_len dontwait n = do
    s ← socket_of libc format line n sfd
    recv_on sleeps sfd max_len dontwait s n
