-- ===== src/Conn/Bridge.antt =====
-- The closed system of events and rounds: which states the manager reaches.
use companion_robot.Base.{ℕ, ◌+◌, ◌≡◌, refl, ap, ◌∙◌, Bool, true, false, List, [], ◌∷◌, arith}
use companion_robot.Conn.Manager.{
  ConnState, ble_connected, offline, error, ConnMgr, conn_start, Links, round,
}
use companion_robot.Conn.Links.{WsClient}
use companion_robot.Conn.Wifi.{
  WifiEvent, sta_start, sta_disconnected, got_ip, other_event, Comm, wifi_event_handler, bits_of,
  CommStep, wifi_event, manager_round, comm_step, run_comm, comm_start,
}

-- The states of the bridge, and those behind it.
abbrev pub is_bridged : ConnState → Bool
is_bridged ble_connected = true
is_bridged offline = true
is_bridged error = true
is_bridged _ = false

round_unbridged :
    (ms_to_ticks : ℕ → ℕ) (s : ConnMgr) (l : Links)
    → l.ble_ok ≡ false
    → is_bridged s.state ≡ false
    → is_bridged (round ms_to_ticks s l).0.state ≡ false
unfolding round
round_unbridged ms_to_ticks s l b h = ground arith

handler-ble_bit : (e : WifiEvent) (s : Comm) → (wifi_event_handler e s).ble_bit ≡ s.ble_bit
unfolding wifi_event_handler
handler-ble_bit sta_start s = refl
handler-ble_bit sta_disconnected s = refl
handler-ble_bit got_ip s = refl
handler-ble_bit other_event s = refl

handler-manager : (e : WifiEvent) (s : Comm) → (wifi_event_handler e s).manager ≡ s.manager
unfolding wifi_event_handler
handler-manager sta_start s = refl
handler-manager sta_disconnected s = refl
handler-manager got_ip s = refl
handler-manager other_event s = refl

-- No bit of the bridge, and no state of it.
record IsDirect (s : Comm) : Type 0 where
  no_bit : s.ble_bit ≡ false
  no_bridge : is_bridged s.manager.state ≡ false

-- How often the radio starts.
unfoldable starts : List CommStep → ℕ
starts [] = 0
starts (wifi_event sta_start ∷ xs) = 1 + starts xs
starts (x ∷ xs) = starts xs

module _ (ms_to_ticks : ℕ → ℕ) where
  step-IsDirect : (x : CommStep) (s : Comm) → IsDirect s → IsDirect (comm_step ms_to_ticks x s)
  unfolding comm_step
  step-IsDirect (wifi_event e) s h = record {
    no_bit = handler-ble_bit e s ∙ h.no_bit;
    no_bridge = ap (λ (m : ConnMgr). is_bridged m.state) (handler-manager e s) ∙ h.no_bridge;
  }
  step-IsDirect (manager_round now) s h = record {
    no_bit = h.no_bit;
    no_bridge = round_unbridged ms_to_ticks s.manager (bits_of s now) h.no_bit h.no_bridge;
  }

  run-IsDirect : (xs : List CommStep) (s : Comm) → IsDirect s → IsDirect (run_comm ms_to_ticks xs s)
  unfolding run_comm
  run-IsDirect [] s h = h
  run-IsDirect (x ∷ xs) s h = run-IsDirect xs (comm_step ms_to_ticks x s) (step-IsDirect x s h)

  -- From the start, whatever WiFi events and rounds follow, at whatever times, the manager never
  -- reaches the bridge over Bluetooth, nor the offline mode behind it, nor the error state.
  pub bridge_never_reached :
      (client : WsClient) (xs : List CommStep)
      → is_bridged (run_comm ms_to_ticks xs (comm_start client)).manager.state ≡ false
  unfolding conn_start
  bridge_never_reached client xs =
      (run-IsDirect xs (comm_start client) (record { no_bit = refl; no_bridge = refl })).no_bridge

  -- The station is told to connect once for each start of the radio, and not after a loss.
  wifi_not_redialled :
      (xs : List CommStep) (s : Comm)
      → (run_comm ms_to_ticks xs s).wifi_connects ≡ s.wifi_connects + starts xs
  unfolding run_comm comm_step wifi_event_handler starts
  wifi_not_redialled [] s = omega arith
  wifi_not_redialled (wifi_event sta_start ∷ xs) s =
      let h = wifi_not_redialled xs (comm_step ms_to_ticks (wifi_event sta_start) s) in
      omega (arith, h)
  wifi_not_redialled (wifi_event sta_disconnected ∷ xs) s =
      wifi_not_redialled xs (comm_step ms_to_ticks (wifi_event sta_disconnected) s)
  wifi_not_redialled (wifi_event got_ip ∷ xs) s =
      wifi_not_redialled xs (comm_step ms_to_ticks (wifi_event got_ip) s)
  wifi_not_redialled (wifi_event other_event ∷ xs) s = wifi_not_redialled xs s
  wifi_not_redialled (manager_round now ∷ xs) s =
      wifi_not_redialled xs (comm_step ms_to_ticks (manager_round now) s)
