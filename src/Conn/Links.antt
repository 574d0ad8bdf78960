-- ===== src/Conn/Links.antt =====
-- The two links: firmware/components/comm/ws_client.c and ble_gatt.c. `junk` is what an
-- uninitialised buffer holds.
use companion_robot.Base.{
  ℕ, zero, suc, ◌+◌, ◌-◌, ◌%◌, Bool, true, false, not, ◌&&◌, Option, none, some, List, [], ◌∷◌,
  ◌++◌, ltb, leb, if◌then◌else◌,
}
use companion_robot.Base.Bytes.{Memory}
use companion_robot.Base.Int.{ℤ, pos, negsuc}
use companion_robot.Bcp.Ids.{Kind, kind_of, reset}
use companion_robot.Bcp.Types.{Command, Frame}
use companion_robot.Bcp.Frame.{bcp_encode}

-- `ws_client_t`, with the event bit of the connection. Sending is a stub in the source: it logs the
-- length of a message and hands nothing to the socket; `logged` has those lengths.
pub record WsClient : Type 0 where
  pub sock_fd : ℤ
  pub connected : Bool
  pub rx_buf_len : ℕ
  pub connected_bit : Bool
  pub logged : List ℕ

unfoldable pub ws_connect : WsClient → WsClient
ws_connect c = record c { connected = true; rx_buf_len = 0; connected_bit = true }

unfoldable pub ws_disconnect : WsClient → WsClient
ws_disconnect c =
    if c.connected
    then record c { connected = false; sock_fd = negsuc 0; connected_bit = false }
    else c

-- `ws_send_raw`, which does not read its data: the result, and the client with the length logged.
unfoldable pub ws_send_raw : ℕ → WsClient → ℤ × WsClient
ws_send_raw len c =
    if not c.connected
    then (negsuc 0, c)
    else (pos len, record c { logged = c.logged ++ (len ∷ []) })

unfoldable pub ws_send_frame : (junk : Memory) → Frame → WsClient → ℤ × WsClient
ws_send_frame junk f c =
    let (len, buf) = bcp_encode f junk 1024 in
    if ltb len 0 then (negsuc 0, c) else ws_send_raw len c

-- `ble_gatt_t`. Here too sending only logs: `logged` has the lengths that the debug lines of
-- `ble_send_frame` name, of a frame or of its fragments.
pub record BleGatt : Type 0 where
  pub connected : Bool
  pub mtu : ℕ
  pub tx_frag_buf : Memory
  pub tx_frag_len : ℕ
  pub tx_frag_offset : ℕ
  pub logged : List ℕ

-- The length of the next fragment.
unfoldable pub chunk_of : (effective_mtu left : ℕ) → ℕ
chunk_of effective_mtu left = if ltb effective_mtu left then effective_mtu else left

-- The loop over the fragments, on fuel: the lengths. `none` means that the fuel ran out.
unfoldable pub frag_loop : (fuel len effective_mtu offset : ℕ) → Option (List ℕ)
frag_loop zero len effective_mtu offset = none
frag_loop (suc n) len effective_mtu offset =
    let chunk = chunk_of effective_mtu (len - offset) in
    let rest : Option (List ℕ) = elim (frag_loop n len effective_mtu (offset + chunk)) [
      | none ↦ none
      | some l ↦ some (chunk ∷ l)
    ] in
    if ltb offset len then rest else some []

-- `ble_send_frame` with the fuel of its loop: the result and the context.
unfoldable pub ble_send_frame : (fuel : ℕ) (junk : Memory) → Frame → BleGatt → Option (ℤ × BleGatt)
ble_send_frame fuel junk f g =
    let (total_len, buf) = bcp_encode f junk 1024 in
    let copied : Memory = λ j. if ltb j total_len then buf j else g.tx_frag_buf j in
    let effective_mtu = (g.mtu + 65536 - 3) % 65536 in
    let fragmented : Option (ℤ × BleGatt) = elim (frag_loop fuel total_len effective_mtu 0) [
      | none ↦ none
      | some l ↦ some (
        pos 0,
        record g {
          tx_frag_len = total_len;
          tx_frag_offset = total_len;
          tx_frag_buf = copied;
          logged = g.logged ++ l;
        },
      )
    ] in
    if not g.connected
    then some (negsuc 0, g)
    else if ltb total_len 0
    then some (negsuc 0, g)
    else if leb total_len effective_mtu
    then some (pos 0, record g { logged = g.logged ++ (total_len ∷ []) })
    else fragmented

-- A round of `task_comm_tx`: the frame taken from the queue, if there is one.
unfoldable pub comm_tx_round :
    (fuel : ℕ) (junk : Memory) → Option Frame → WsClient → BleGatt → Option (WsClient × BleGatt)
comm_tx_round fuel junk none c g = some (c, g)
comm_tx_round fuel junk (some f) c g =
    let c' = if c.connected then (ws_send_frame junk f c).1 else c in
    let over_ble : Option (WsClient × BleGatt) = elim (ble_send_frame fuel junk f g) [
      | none ↦ none
      | some (r, g') ↦ some (c', g')
    ] in
    if not c'.connected && g.connected then over_ble else some (c', g)

is_reset : Kind → Bool
is_reset reset = true
is_reset _ = false

-- The loop of `task_comm_rx` over the commands of a frame: whether it restarts the chip. The other
-- cases do nothing.
unfoldable pub rx_restarts : List Command → Bool
unfolding is_reset
rx_restarts [] = false
rx_restarts (c ∷ cs) =
    let rest = rx_restarts cs in if is_reset (kind_of c.cmd_id) then true else rest
