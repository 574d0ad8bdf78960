-- ===== src/Conn/Timers.antt =====
-- Runs of the connection manager: grace periods, recovery, and a state that it does not leave.
use companion_robot.Base.{
  ℕ, ◌<◌, ◌≤◌, ◌≡◌, ◌≢◌, ◌⊎◌, inl, inr, refl, ap, ◌∙◌, Bool, true, false, List, [], ◌∷◌, All, arith,
  not, sub32,
}
use companion_robot.Conn.Manager.{
  ConnState, wifi_connecting, ws_connected, ble_advertising, ble_connected, offline, ConnMgr, Links,
  ble_start_advertising, conn_start, round, run_rounds,
}

-- States in which the manager has fallen back from WiFi.
abbrev pub is_fallback : ConnState → Bool
is_fallback ble_advertising = true
is_fallback ble_connected = true
is_fallback offline = true
is_fallback _ = false

module _ (ms_to_ticks : ℕ → ℕ) where
  -- The socket is down at `l`, and was not yet down too long since `t`.
  abbrev pub SocketDownSince : ℕ → Links → Type 0
  SocketDownSince t l = (l.ws_ok ≡ false) × (sub32 l.now t ≤ ms_to_ticks 5000)

  abbrev pub BridgeDownSince : ℕ → Links → Type 0
  BridgeDownSince t l =
      (l.wifi_ok ≡ false) × (l.ble_ok ≡ false) × (sub32 l.now t ≤ ms_to_ticks 10000)

  socket_down_round :
      (s : ConnMgr) (l : Links) (t : ℕ)
      → t ≢ 0
      → s.state ≡ ws_connected
      → (s.wifi_lost_at ≡ t) ⊎ ((s.wifi_lost_at ≡ 0) × (l.now ≡ t))
      → SocketDownSince t l
      → let s' = (round ms_to_ticks s l).0 in (s'.state ≡ ws_connected) × (s'.wifi_lost_at ≡ t)
  unfolding round
  socket_down_round s l t n e lost d = ground arith

  socket_down_rounds :
      (ls : List Links) (s : ConnMgr) (t : ℕ)
      → t ≢ 0
      → s.state ≡ ws_connected
      → s.wifi_lost_at ≡ t
      → All (SocketDownSince t) ls
      → let s' = run_rounds ms_to_ticks s ls in (s'.state ≡ ws_connected) × (s'.wifi_lost_at ≡ t)
  unfolding run_rounds
  socket_down_rounds [] s t n e lost d = (e, lost)
  socket_down_rounds (l ∷ ls) s t n e lost (d, ds) =
      let (e', lost') = socket_down_round s l t n e (inl lost) d in
      socket_down_rounds ls (round ms_to_ticks s l).0 t n e' lost' ds

  socket_down_end :
      (s : ConnMgr) (l : Links) (t : ℕ)
      → t ≢ 0
      → s.state ≡ ws_connected
      → s.wifi_lost_at ≡ t
      → l.ws_ok ≡ false
      → ms_to_ticks 5000 < sub32 l.now t
      → (round ms_to_ticks s l).0.state ≡ ble_advertising
        × ((round ms_to_ticks s l).1 ≡ ble_start_advertising ∷ [])
  unfolding round
  socket_down_end s l t n e lost d late = ground arith

  -- In the direct mode with the loss timer stopped, a socket that goes down at a time other than 0
  -- keeps the manager in the direct mode through every round up to 5000 ms later; the first round
  -- after that, the socket still down, starts Bluetooth advertising.
  pub socket_loss_grace :
      (s : ConnMgr) (first last : Links) (ls : List Links)
      → s.state ≡ ws_connected
      → s.wifi_lost_at ≡ 0
      → first.now ≢ 0
      → All (SocketDownSince first.now) (first ∷ ls)
      → last.ws_ok ≡ false
      → ms_to_ticks 5000 < sub32 last.now first.now
      → let s' = run_rounds ms_to_ticks s (first ∷ ls) in
        (s'.state ≡ ws_connected)
        × ((round ms_to_ticks s' last).0.state ≡ ble_advertising)
        × ((round ms_to_ticks s' last).1 ≡ ble_start_advertising ∷ [])
  unfolding run_rounds
  socket_loss_grace s first last ls e idle n (d, ds) down late =
      let (e1, lost1) = socket_down_round s first first.now n e (inr (idle, refl)) d in
      let (e2, lost2) =
        socket_down_rounds ls (round ms_to_ticks s first).0 first.now n e1 lost1 ds in
      let (to, calls) =
        socket_down_end (run_rounds ms_to_ticks (round ms_to_ticks s first).0 ls) last first.now n
          e2 lost2 down late in
      (e2, to, calls)

  bridge_down_round :
      (s : ConnMgr) (l : Links) (t : ℕ)
      → t ≢ 0
      → s.state ≡ ble_connected
      → (s.ble_lost_at ≡ t) ⊎ ((s.ble_lost_at ≡ 0) × (l.now ≡ t))
      → BridgeDownSince t l
      → let s' = (round ms_to_ticks s l).0 in (s'.state ≡ ble_connected) × (s'.ble_lost_at ≡ t)
  unfolding round
  bridge_down_round s l t n e lost d = ground arith

  bridge_down_rounds :
      (ls : List Links) (s : ConnMgr) (t : ℕ)
      → t ≢ 0
      → s.state ≡ ble_connected
      → s.ble_lost_at ≡ t
      → All (BridgeDownSince t) ls
      → let s' = run_rounds ms_to_ticks s ls in (s'.state ≡ ble_connected) × (s'.ble_lost_at ≡ t)
  unfolding run_rounds
  bridge_down_rounds [] s t n e lost d = (e, lost)
  bridge_down_rounds (l ∷ ls) s t n e lost (d, ds) =
      let (e', lost') = bridge_down_round s l t n e (inl lost) d in
      bridge_down_rounds ls (round ms_to_ticks s l).0 t n e' lost' ds

  bridge_down_end :
      (s : ConnMgr) (l : Links) (t : ℕ)
      → t ≢ 0
      → s.state ≡ ble_connected
      → s.ble_lost_at ≡ t
      → l.wifi_ok ≡ false
      → l.ble_ok ≡ false
      → ms_to_ticks 10000 < sub32 l.now t
      → (round ms_to_ticks s l).0.state ≡ offline
  unfolding round
  bridge_down_end s l t n e lost w d late = ground arith

  -- In the bridge mode with the loss timer stopped and no WiFi, a bridge that goes down at a time
  -- other than 0 keeps the manager in the bridge mode through every round up to 10000 ms later; the
  -- first round after that, both links still down, goes offline.
  pub bridge_loss_grace :
      (s : ConnMgr) (first last : Links) (ls : List Links)
      → s.state ≡ ble_connected
      → s.ble_lost_at ≡ 0
      → first.now ≢ 0
      → All (BridgeDownSince first.now) (first ∷ ls)
      → last.wifi_ok ≡ false
      → last.ble_ok ≡ false
      → ms_to_ticks 10000 < sub32 last.now first.now
      → let s' = run_rounds ms_to_ticks s (first ∷ ls) in
        (s'.state ≡ ble_connected) × ((round ms_to_ticks s' last).0.state ≡ offline)
  unfolding run_rounds
  bridge_loss_grace s first last ls e idle n (d, ds) w down late =
      let (e1, lost1) = bridge_down_round s first first.now n e (inr (idle, refl)) d in
      let (e2, lost2) =
        bridge_down_rounds ls (round ms_to_ticks s first).0 first.now n e1 lost1 ds in
      (
        e2,
        bridge_down_end (run_rounds ms_to_ticks (round ms_to_ticks s first).0 ls) last first.now n
            e2 lost2 w down late,
      )

  -- Once the direct mode has been reached, WiFi brings the manager back to it from each fallback
  -- state in three rounds: WiFi up in the first, anything in the second, the socket up in the third.
  pub wifi_recovers :
      (s : ConnMgr) (a b c : Links)
      → is_fallback s.state ≡ true
      → s.wifi_was_connected ≡ true
      → a.wifi_ok ≡ true
      → c.ws_ok ≡ true
      → (run_rounds ms_to_ticks s (a ∷ b ∷ c ∷ [])).state ≡ ws_connected
  unfolding run_rounds round
  wifi_recovers s a b c f w h k = ground arith

  advertising_round :
      (s : ConnMgr) (l : Links)
      → s.state ≡ ble_advertising
      → s.wifi_was_connected ≡ false
      → l.ble_ok ≡ false
      → (round ms_to_ticks s l).0 ≡ s
  unfolding round
  advertising_round s l e w b = ground arith

  advertising_stays :
      (ls : List Links) (s : ConnMgr)
      → s.state ≡ ble_advertising
      → s.wifi_was_connected ≡ false
      → All (λ (l : Links). l.ble_ok ≡ false) ls
      → run_rounds ms_to_ticks s ls ≡ s
  unfolding run_rounds
  advertising_stays [] s e w b = refl
  advertising_stays (l ∷ ls) s e w (b, bs) =
      rw (advertising_round s l e w b) (advertising_stays ls s e w bs)

  -- Not yet connected over WiFi, and waiting for a link.
  abbrev waits : ConnMgr → Bool
  waits s = elim (s.state) [
    | wifi_connecting ↦ not s.wifi_was_connected
    | ble_advertising ↦ not s.wifi_was_connected
    | _ ↦ false
  ]

  waiting_rounds :
      (ls : List Links) (s : ConnMgr)
      → waits s ≡ true
      → All (λ (l : Links). (l.wifi_ok ≡ false) × (l.ble_ok ≡ false)) ls
      → waits (run_rounds ms_to_ticks s ls) ≡ true
  unfolding run_rounds
  waiting_rounds [] s w d = w
  waiting_rounds (l ∷ ls) s w (d, ds) =
      waiting_rounds ls (round ms_to_ticks s l).0 (unfold round in ground arith) ds

  late_round :
      (s : ConnMgr) (l : Links)
      → waits s ≡ true
      → l.wifi_ok ≡ false
      → l.ble_ok ≡ false
      → 10000 < l.now
      → let s' = (round ms_to_ticks s l).0 in
        (s'.state ≡ ble_advertising) × (s'.wifi_was_connected ≡ false)
  unfolding round
  late_round s l w p q late = ground arith

  -- If no link is up in the rounds from start-up to one later than tick 10000, at least one round
  -- before that one, then the manager advertises over Bluetooth from there on, also while WiFi is up, as
  -- long as no phone connects: WiFi is taken back only after the direct mode was reached once.
  pub late_wifi_ignored :
      (a late : Links) (before after : List Links)
      → All (λ (l : Links). (l.wifi_ok ≡ false) × (l.ble_ok ≡ false)) (a ∷ before)
      → late.wifi_ok ≡ false
      → late.ble_ok ≡ false
      → 10000 < late.now
      → All (λ (l : Links). l.ble_ok ≡ false) after
      → (run_rounds ms_to_ticks
          (run_rounds ms_to_ticks conn_start (a ∷ before))
          (late ∷ after)).state
        ≡ ble_advertising
  unfolding run_rounds
  late_wifi_ignored a late before after ((p, q), ds) w b t quiet =
      let s = run_rounds ms_to_ticks (round ms_to_ticks conn_start a).0 before in
      let ready =
        waiting_rounds before (round ms_to_ticks conn_start a).0
          (unfold round conn_start in ground arith) ds in
      let (e, was) = late_round s late ready w b t in
      ap (λ (r : ConnMgr). r.state)
        (advertising_stays after (round ms_to_ticks s late).0 e was quiet)
      ∙ e
