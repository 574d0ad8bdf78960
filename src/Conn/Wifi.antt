-- ===== src/Conn/Wifi.antt =====
-- The WiFi events and the event bits of firmware/components/comm/conn_manager.c, and the manager
-- together with all code that sets or clears the bits.
use companion_robot.Base.{ℕ, ◌+◌, Bool, true, false, List, [], ◌∷◌}
use companion_robot.Conn.Manager.{
  LinkCall, ble_start_advertising, ble_stop_advertising, ws_connect, ws_disconnect, ConnMgr, Links,
  conn_start, round,
}
use companion_robot.Conn.Links.{WsClient}
use companion_robot.Conn.Links

-- The events that the handler tells apart.
pub data WifiEvent : Type 0 where
  sta_start sta_disconnected got_ip other_event : WifiEvent

-- The bits of the event group, the one of the socket inside of its client; the manager; and how
-- often `esp_wifi_connect` was called.
pub record Comm : Type 0 where
  pub wifi_bit : Bool
  pub ble_bit : Bool
  pub client : WsClient
  pub manager : ConnMgr
  pub wifi_connects : ℕ

unfoldable pub wifi_event_handler : WifiEvent → Comm → Comm
wifi_event_handler sta_start s = record s { wifi_connects = s.wifi_connects + 1 }
wifi_event_handler sta_disconnected s =
    let c : WsClient = record s.client { connected_bit = false } in
    record s { wifi_bit = false; client = c }
wifi_event_handler got_ip s = record s { wifi_bit = true }
wifi_event_handler other_event s = s

-- What a call of the manager does to the client; advertising sets no bit.
unfoldable pub link_call : LinkCall → WsClient → WsClient
link_call ble_start_advertising c = c
link_call ble_stop_advertising c = c
link_call ws_connect c = Links.ws_connect c
link_call ws_disconnect c = Links.ws_disconnect c

unfoldable pub link_calls : List LinkCall → WsClient → WsClient
link_calls [] c = c
link_calls (call ∷ calls) c = link_calls calls (link_call call c)

-- The bits as a round reads them.
abbrev pub bits_of : Comm → ℕ → Links
bits_of s now = record {
  wifi_ok = s.wifi_bit;
  ws_ok = s.client.connected_bit;
  ble_ok = s.ble_bit;
  now = now;
}

-- An event, or a round of the manager at a tick count.
pub data CommStep : Type 0 where
  wifi_event : (e : WifiEvent) → CommStep
  manager_round : (now : ℕ) → CommStep

module _ (ms_to_ticks : ℕ → ℕ) where
  unfoldable pub comm_step : CommStep → Comm → Comm
  comm_step (wifi_event e) s = wifi_event_handler e s
  comm_step (manager_round now) s =
      let (m, calls) = round ms_to_ticks s.manager (bits_of s now) in
      record s { manager = m; client = link_calls calls s.client }

  unfoldable pub run_comm : List CommStep → Comm → Comm
  run_comm [] s = s
  run_comm (x ∷ xs) s = run_comm xs (comm_step x s)

-- As the program starts.
abbrev pub comm_start : (client : WsClient) → Comm
comm_start client = record {
  wifi_bit = false;
  ble_bit = false;
  client = client;
  manager = conn_start;
  wifi_connects = 0;
}
