-- ===== src/Conn/Manager.antt =====
-- The state machine of `task_conn_manager` in firmware/components/comm/conn_manager.c.
-- Times are tick counts, `uint32_t`.
use companion_robot.Base.{
  ℕ, Bool, true, false, ◌&&◌, not, Option, none, some, List, [], ◌∷◌, ltb, leb, ◌==◌, if◌then◌else◌,
  sub32,
}
use companion_robot.Conn.Heartbeat.{Vitals, HbState, conn_send_heartbeat}

-- `conn_state_t`.
pub data ConnState : Type 0 where
  init wifi_connecting wifi_connected ws_connecting ws_connected : ConnState
  ble_advertising ble_connected offline error : ConnState

-- The calls into ws_client.c and ble_gatt.c.
pub data LinkCall : Type 0 where
  ble_start_advertising ble_stop_advertising ws_connect ws_disconnect : LinkCall

-- `g_conn_mgr` and the local variables of the task.
pub record ConnMgr : Type 0 where
  pub state : ConnState
  pub reconnect_attempt : ℕ
  pub wifi_lost_at : ℕ
  pub ble_lost_at : ℕ
  pub wifi_was_connected : Bool

-- The event bits and the tick count that a round reads.
pub record Links : Type 0 where
  pub wifi_ok : Bool
  pub ws_ok : Bool
  pub ble_ok : Bool
  pub now : ℕ

unfoldable pub conn_start : ConnMgr
conn_start = record {
  state = init;
  reconnect_attempt = 0;
  wifi_lost_at = 0;
  ble_lost_at = 0;
  wifi_was_connected = false;
}

abbrev pub wifi_connect_timeout_ms : ℕ
wifi_connect_timeout_ms = 10000

abbrev pub heartbeat_interval_ms : ℕ
heartbeat_interval_ms = 5000

-- `if (lost_at == 0) lost_at = now`.
abbrev pub mark_lost : ℕ → ℕ → ℕ
mark_lost lost_at now = if lost_at == 0 then now else lost_at

-- `ms_to_ticks` is `pdMS_TO_TICKS` of FreeRTOS.
module _ (ms_to_ticks : ℕ → ℕ) where
  -- The `case` of each state: the manager after it, and the calls made.
  round_in : ConnState → ConnMgr → Links → ConnMgr × List LinkCall
  round_in init s l =
      (record s { state = if l.wifi_ok then wifi_connected else wifi_connecting }, [])
  round_in wifi_connecting s l =
      if l.wifi_ok
      then (record s { state = wifi_connected }, [])
      else if ltb wifi_connect_timeout_ms l.now
      then (record s { state = ble_advertising }, ble_start_advertising ∷ [])
      else (s, [])
  round_in wifi_connected s l = (record s { state = ws_connecting }, ws_connect ∷ [])
  round_in ws_connecting s l =
      if l.ws_ok
      then (record s { state = ws_connected; reconnect_attempt = 0 }, [])
      else if not l.wifi_ok
      then (record s { state = wifi_connecting }, ws_disconnect ∷ [])
      else (s, [])
  round_in ws_connected s l =
      let lost_at = mark_lost s.wifi_lost_at l.now in
      if not l.ws_ok
      then (if ltb (ms_to_ticks 5000) (sub32 l.now lost_at)
          then (
            record s { wifi_was_connected = true; state = ble_advertising; wifi_lost_at = 0 },
            ble_start_advertising ∷ [],
          )
          else (record s { wifi_was_connected = true; wifi_lost_at = lost_at }, []))
      else (record s { wifi_was_connected = true; wifi_lost_at = 0 }, [])
  round_in ble_advertising s l =
      if l.wifi_ok && s.wifi_was_connected
      then (record s { state = wifi_connected }, ble_stop_advertising ∷ [])
      else if l.ble_ok
      then (record s { state = ble_connected; ble_lost_at = 0 }, [])
      else (s, [])
  round_in ble_connected s l =
      let lost_at = mark_lost s.ble_lost_at l.now in
      if l.wifi_ok && s.wifi_was_connected
      then (record s { state = wifi_connected }, [])
      else if not l.ble_ok
      then (if ltb (ms_to_ticks 10000) (sub32 l.now lost_at)
          then (record s { state = offline; ble_lost_at = 0 }, [])
          else (record s { ble_lost_at = lost_at }, []))
      else (record s { ble_lost_at = 0 }, [])
  round_in offline s l =
      if l.wifi_ok && s.wifi_was_connected
      then (record s { state = wifi_connected }, [])
      else if l.ble_ok
      then (record s { state = ble_connected }, [])
      else (s, [])
  round_in error s l = (s, [])

  -- The `switch` of one round of the loop.
  unfoldable pub round : ConnMgr → Links → ConnMgr × List LinkCall
  unfolding round_in
  round s l = round_in s.state s l

  -- The switches of successive rounds.
  unfoldable pub run_rounds : ConnMgr → List Links → ConnMgr
  run_rounds s [] = s
  run_rounds s (l ∷ ls) = run_rounds (round s l).0 ls

abbrev pub is_linked : ConnState → Bool
is_linked ws_connected = true
is_linked ble_connected = true
is_linked _ = false

-- The placeholder values that the loop sends: 85 percent, -40 dBm.
abbrev pub fixed_vitals : Vitals
fixed_vitals = record { status = 0; battery = 85; rssi = 216; task_id = 0 }

-- The section "Periodic heartbeat" at `now_ms`: `last_hb_ms`, the heartbeat state, the frame sent.
unfoldable pub periodic_heartbeat : ConnState → ℕ → HbState → ℕ → ℕ × HbState × Option (List ℕ)
periodic_heartbeat state last_hb_ms h now_ms =
    let sent = conn_send_heartbeat h 0 fixed_vitals in
    if leb heartbeat_interval_ms (sub32 now_ms last_hb_ms)
    then (if is_linked state then (now_ms, sent.0, some sent.1) else (now_ms, h, none))
    else (last_hb_ms, h, none)
