-- ===== src/Examples/Links.antt =====
-- Connection manager and heartbeats on concrete inputs, with one tick per millisecond.
use companion_robot.Base.{ℕ, ◌≡◌, refl, List, Bool, true, false, [], ◌∷◌, arith}
use companion_robot.Conn.Manager.{
  ws_connected, ble_advertising, ConnMgr, Links, ble_start_advertising, conn_start, round,
  run_rounds,
}
use companion_robot.Base.Int.{negsuc}
use companion_robot.Conn.Links.{WsClient, ws_connect, ws_disconnect}
use companion_robot.Conn.Wifi.{
  sta_start, sta_disconnected, got_ip, CommStep, wifi_event, manager_round, wifi_event_handler,
  link_call, link_calls, comm_step, run_comm, comm_start,
}
use companion_robot.Conn.Bridge.{is_bridged, bridge_never_reached}
use companion_robot.Conn.Timers.{socket_loss_grace}
use companion_robot.Conn.Heartbeat.{Vitals, HbState, hb_start, choose_type, full, is_full}
use companion_robot.Conn.HeartbeatSync.{InRange, InStep, send_all, receive_all, heartbeat-InStep}

abbrev same_ticks : ℕ → ℕ
same_ticks n = n

abbrev links : Bool → Bool → Bool → ℕ → Links
links w s b t = record { wifi_ok = w; ws_ok = s; ble_ok = b; now = t }

abbrev direct : ConnMgr
direct = record {
  state = ws_connected;
  reconnect_attempt = 0;
  wifi_lost_at = 0;
  ble_lost_at = 0;
  wifi_was_connected = true;
}

socket_loss_grace_example :
    let s' =
      run_rounds same_ticks direct
        (links true false false 100 ∷ links true false false 5000 ∷ []) in
    (s'.state ≡ ws_connected)
    × ((round same_ticks s' (links true false false 5200)).0.state ≡ ble_advertising)
    × ((round same_ticks s' (links true false false 5200)).1 ≡ ble_start_advertising ∷ [])
socket_loss_grace_example =
    socket_loss_grace same_ticks direct (links true false false 100) (links true false false 5200)
      (links true false false 5000 ∷ []) refl refl (λ e. omega (arith, e))
      ((refl, omega arith), ((refl, omega arith), tt)) refl (omega arith)

abbrev vitals : ℕ → ℕ → Vitals
vitals battery rssi = record { status = 1; battery = battery; rssi = rssi; task_id = 7 }

vitals-InRange : InRange (vitals 80 200)
vitals-InRange = record {
  status_u8 = omega arith;
  battery_u8 = omega arith;
  rssi_u8 = omega arith;
  task_u16 = omega arith;
}

start-InStep : InStep hb_start (record { status = 0; battery = 0; rssi = 3; task_id = 0 })
unfolding hb_start
start-InStep = record { same_status = refl; same_battery = refl }

heartbeat-InStep_example : InStep (send_all hb_start 5 (vitals 80 200 ∷ [])) (
    receive_all hb_start 5
      (record { status = 0; battery = 0; rssi = 3; task_id = 0 })
      (vitals 80 200 ∷ []))
heartbeat-InStep_example =
    heartbeat-InStep (vitals 80 200 ∷ []) hb_start 5
      (record { status = 0; battery = 0; rssi = 3; task_id = 0 }) (vitals-InRange, tt) start-InStep

abbrev nearly_due : HbState
nearly_due = record { cache = vitals 80 200; full_countdown = 2; seq = 0 }

abbrev due : HbState
due = record { cache = vitals 80 200; full_countdown = 1; seq = 0 }

due_now : choose_type due (vitals 80 200) ≡ full
unfolding choose_type
due_now = refl

not_due : is_full (choose_type nearly_due (vitals 80 200)) ≡ false
unfolding choose_type
not_due = refl

abbrev no_client : WsClient
no_client = record {
  sock_fd = negsuc 0;
  connected = false;
  rx_buf_len = 0;
  connected_bit = false;
  logged = [];
}

-- Up, into the direct mode, down, and past the grace period.
abbrev up_and_down : List CommStep
up_and_down =
    wifi_event sta_start
    ∷ manager_round 10
    ∷ wifi_event got_ip
    ∷ manager_round 20
    ∷ manager_round 30
    ∷ manager_round 40
    ∷ wifi_event sta_disconnected
    ∷ manager_round 50
    ∷ manager_round 5100
    ∷ []

-- The run ends in advertising.
up_and_down_advertises :
    (run_comm same_ticks up_and_down (comm_start no_client)).manager.state ≡ ble_advertising
unfolding run_comm comm_step wifi_event_handler link_calls link_call round ws_connect ws_disconnect
    conn_start
up_and_down_advertises = refl

bridge_never_reached_example :
    is_bridged (run_comm same_ticks up_and_down (comm_start no_client)).manager.state ≡ false
bridge_never_reached_example = bridge_never_reached same_ticks no_client up_and_down
