-- ===== src/Conn/Graph.antt =====
-- The transitions of the connection manager, and where it can stay for ever.
use companion_robot.Base.{ℕ, ◌≡◌, ◌≢◌, true, arith}
use companion_robot.Conn.Manager.{
  ConnState, init, wifi_connecting, wifi_connected, ws_connecting, ws_connected, ble_advertising,
  ble_connected, offline, error, ConnMgr, Links, conn_start, round,
}

-- The diagram in the comment at the head of conn_manager.c, with the ways back, and the call that
-- each edge makes.
infix 40 ◌⟶◌
pub data ◌⟶◌ : ConnState → ConnState → Type 0 where
  begin : init ⟶ wifi_connecting
  begin_linked : init ⟶ wifi_connected
  associate : wifi_connecting ⟶ wifi_connected
  wifi_timeout : wifi_connecting ⟶ ble_advertising
  dial : wifi_connected ⟶ ws_connecting
  open_socket : ws_connecting ⟶ ws_connected
  wifi_loss : ws_connecting ⟶ wifi_connecting
  socket_loss : ws_connected ⟶ ble_advertising
  bridge : ble_advertising ⟶ ble_connected
  recover_advertising : ble_advertising ⟶ wifi_connected
  recover_bridged : ble_connected ⟶ wifi_connected
  bridge_loss : ble_connected ⟶ offline
  recover_offline : offline ⟶ wifi_connected
  bridge_offline : offline ⟶ ble_connected
  stay : {s : ConnState} → s ⟶ s

ruleset edges = (
  begin, begin_linked, associate, wifi_timeout, dial, open_socket, wifi_loss, socket_loss, bridge,
  recover_advertising, recover_bridged, bridge_loss, recover_offline, bridge_offline, stay,
)

-- What every round keeps.
pub record IsRegular (s : ConnMgr) : Type 0 where
  pub wifi_timer : s.wifi_lost_at ≢ 0 → s.state ≡ ws_connected
  pub ble_timer : s.state ≡ offline → s.ble_lost_at ≡ 0
  pub connected_once : s.state ≡ ws_connected → s.wifi_lost_at ≢ 0 → s.wifi_was_connected ≡ true
  pub no_attempts : s.reconnect_attempt ≡ 0
  pub no_error : s.state ≢ error

pub conn_start-IsRegular : IsRegular conn_start
unfolding conn_start
conn_start-IsRegular = ground arith

module _ (ms_to_ticks : ℕ → ℕ) where
  -- Every round, whatever the links and the clock, follows an edge of the diagram or stays.
  pub round-⟶ : (s : ConnMgr) (l : Links) → s.state ⟶ (round ms_to_ticks s l).0.state
  unfolding round
  round-⟶ s l = grind (arith, edges)

  -- Every round keeps the manager regular: the WiFi timer runs only in the direct mode, the BLE
  -- timer is stopped in the offline mode, the attempt counter stays 0 and the error state is not
  -- entered.
  pub round-IsRegular :
      (s : ConnMgr) (l : Links) → IsRegular s → IsRegular (round ms_to_ticks s l).0
  unfolding round
  round-IsRegular s l h = ground arith
