-- ===== src/Conn/HeartbeatSync.antt =====
-- What a receiver of the delta heartbeats can know, and how often it gets all of it.
use companion_robot.Base.{
  ℕ, zero, suc, ◌+◌, ◌*◌, ◌/◌, ◌<◌, ◌≡◌, refl, false, List, [], ◌∷◌, length, arith, ◌==◌,
  if◌then◌else◌, All,
}
use companion_robot.Conn.Heartbeat.{
  HbType, no_change, battery_only, status_change, full, Vitals, HbState, choose_type, hb_frame,
  is_full, conn_send_heartbeat,
}

-- A receiver by the header comment of conn_manager.h: the two top bits of the first byte tell
-- which of the values it holds the frame replaces.
abbrev pub body_of : List ℕ → List ℕ
body_of (h ∷ lo ∷ hi ∷ body) = body
body_of _ = []

abbrev pub type_of : List ℕ → ℕ
type_of [] = 0
type_of (h ∷ rest) = h / 64

abbrev pub replace : ℕ → List ℕ → Vitals → Vitals
replace zero body p = p
replace (suc zero) (b ∷ []) p = record p { battery = b }
replace (suc (suc zero)) (s ∷ b ∷ []) p = record p { status = s; battery = b }
replace (suc (suc (suc zero))) (s ∷ b ∷ r ∷ lo ∷ hi ∷ []) p = record {
  status = s;
  battery = b;
  rssi = r;
  task_id = lo + hi * 256;
}
replace _ body p = p

unfoldable pub receive : Vitals → List ℕ → Vitals
receive p frame = replace (type_of frame) (body_of frame) p

-- Values in the range of their C types.
pub record InRange (v : Vitals) : Type 0 where
  pub status_u8 : v.status < 256
  pub battery_u8 : v.battery < 256
  pub rssi_u8 : v.rssi < 256
  pub task_u16 : v.task_id < 65536

-- What a frame of each type makes of the receiver's values.
abbrev pub replaced : HbType → Vitals → Vitals → Vitals
replaced no_change v p = p
replaced battery_only v p = record p { battery = v.battery }
replaced status_change v p = record p { status = v.status; battery = v.battery }
replaced full v p = v

type_read :
    (t : HbType) (seq id : ℕ) (v : Vitals) (n : ℕ)
    → n ≡ type_of (hb_frame t seq id v)
    → n ≡ (elim t [ no_change ↦ 0 | battery_only ↦ 1 | status_change ↦ 2 | full ↦ 3 ])
unfolding hb_frame
type_read no_change seq id v n e = ground arith
type_read battery_only seq id v n e = ground arith
type_read status_change seq id v n e = ground arith
type_read full seq id v n e = ground arith

receive-hb_frame :
    (t : HbType) (seq id : ℕ) (v p : Vitals)
    → v.task_id < 65536
    → receive p (hb_frame t seq id v) ≡ replaced t v p
unfolding receive hb_frame
receive-hb_frame no_change seq id v p h = rw (type_read no_change seq id v _ refl)
receive-hb_frame battery_only seq id v p h = rw (type_read battery_only seq id v _ refl)
receive-hb_frame status_change seq id v p h = rw (type_read status_change seq id v _ refl)
receive-hb_frame full seq id v p h = rw (type_read full seq id v _ refl) (ground arith)

-- The receiver's battery and status are the sender's last ones.
pub record InStep (h : HbState) (p : Vitals) : Type 0 where
  pub same_status : p.status ≡ h.cache.status
  pub same_battery : p.battery ≡ h.cache.battery

choose_type_lem :
    (h : HbState) (v p : Vitals)
    → InStep h p
    → let q = replaced (choose_type h v) v p in (q.status ≡ v.status) × (q.battery ≡ v.battery)
unfolding choose_type
choose_type_lem h v p s = ground arith

-- The sender after sending `vs` in turn, and the receiver after all their frames.
unfoldable pub send_all : HbState → ℕ → List Vitals → HbState
send_all h id [] = h
send_all h id (v ∷ vs) = send_all (conn_send_heartbeat h id v).0 id vs

unfoldable pub receive_all : HbState → ℕ → Vitals → List Vitals → Vitals
receive_all h id p [] = p
receive_all h id p (v ∷ vs) =
    receive_all (conn_send_heartbeat h id v).0 id (receive p (conn_send_heartbeat h id v).1) vs

-- The types of the frames sent.
unfoldable pub types_sent : HbState → ℕ → List Vitals → List HbType
types_sent h id [] = []
types_sent h id (v ∷ vs) = choose_type h v ∷ types_sent (conn_send_heartbeat h id v).0 id vs

send_cache : (h : HbState) (id : ℕ) (v : Vitals) → (conn_send_heartbeat h id v).0.cache ≡ v
unfolding conn_send_heartbeat
send_cache h id v = refl

-- After any number of heartbeats of values in the range of their C types, a receiver that starts
-- with the sender's cached status and battery, and gets every frame, holds the sender's last
-- status and battery.
pub heartbeat-InStep :
    (vs : List Vitals) (h : HbState) (id : ℕ) (p : Vitals)
    → All InRange vs
    → InStep h p
    → InStep (send_all h id vs) (receive_all h id p vs)
unfolding send_all receive_all conn_send_heartbeat
heartbeat-InStep [] h id p r s = s
heartbeat-InStep (v ∷ vs) h id p (r, rs) s =
    heartbeat-InStep vs (conn_send_heartbeat h id v).0 id (receive p (conn_send_heartbeat h id v).1)
      rs
      (rw (receive-hb_frame (choose_type h v) h.seq id v p r.task_u16, send_cache h id v)
        (let (a, b) = choose_type_lem h v p s in record { same_status = a; same_battery = b }))

-- Heartbeats still to come until a full one, that one included.
abbrev pub until_full : HbState → ℕ
until_full h = if h.full_countdown == 0 then 256 else h.full_countdown

send_countdown :
    (h : HbState) (id : ℕ) (v : Vitals)
    → h.full_countdown < 256
    → let h' = (conn_send_heartbeat h id v).0 in
      (h'.full_countdown < 256)
      × (1 < until_full h
          → (is_full (choose_type h v) ≡ false) × (until_full h' + 1 ≡ until_full h))
      × (until_full h ≡ 1 → (choose_type h v ≡ full) × (until_full h' ≡ 10))
unfolding conn_send_heartbeat choose_type
send_countdown h id v c = ground arith

no_full_before :
    (vs : List Vitals) (h : HbState) (id : ℕ)
    → h.full_countdown < 256
    → length vs < until_full h
    → All (λ t. is_full t ≡ false) (types_sent h id vs)
      × ((send_all h id vs).full_countdown < 256)
      × (until_full (send_all h id vs) + length vs ≡ until_full h)
unfolding types_sent send_all
no_full_before [] h id c l = (tt, c, omega arith)
no_full_before (v ∷ vs) h id c l =
    let (c', next, _) = send_countdown h id v c in
    let (quiet, less) = next (omega arith) in
    let (qs, c'', e) =
      no_full_before vs (conn_send_heartbeat h id v).0 id c' (omega (arith, less)) in
    ((quiet, qs), c'', omega (arith, less, e))

-- From a countdown of `n` heartbeats (256 where the counter is 0, as at start-up) the first
-- `n - 1` heartbeats are not full, whatever they carry, the next one is, and after it the countdown
-- is 10: the first full heartbeat is the 256th, and every tenth is full from then on.
full_heartbeat_period :
    (h : HbState) (id : ℕ) (vs : List Vitals) (v : Vitals)
    → h.full_countdown < 256
    → length vs + 1 ≡ until_full h
    → All (λ t. is_full t ≡ false) (types_sent h id vs)
      × (choose_type (send_all h id vs) v ≡ full)
      × (until_full (conn_send_heartbeat (send_all h id vs) id v).0 ≡ 10)
full_heartbeat_period h id vs v c l =
    let (qs, c', e) = no_full_before vs h id c (omega arith) in
    let (_, _, now) = send_countdown (send_all h id vs) id v c' in
    let (is, next) = now (omega (arith, e)) in (qs, is, next)

-- After a full heartbeat of values in range the receiver holds all four values of the sender.
full_heartbeat_syncs :
    (h : HbState) (id : ℕ) (v p : Vitals)
    → InRange v
    → choose_type h v ≡ full
    → receive p (conn_send_heartbeat h id v).1 ≡ (conn_send_heartbeat h id v).0.cache
unfolding conn_send_heartbeat
full_heartbeat_syncs h id v p r e =
    rw (receive-hb_frame (choose_type h v) h.seq id v p r.task_u16, e)

-- A heartbeat of values in range that is not full leaves the signal strength and the task that
-- the receiver holds as they were, though the sender caches its new values as sent.
rssi_task_lag :
    (h : HbState) (id : ℕ) (v p : Vitals)
    → InRange v
    → is_full (choose_type h v) ≡ false
    → let q = receive p (conn_send_heartbeat h id v).1 in
      (q.rssi ≡ p.rssi) × (q.task_id ≡ p.task_id) × ((conn_send_heartbeat h id v).0.cache ≡ v)
unfolding conn_send_heartbeat
rssi_task_lag h id v p r e =
    rw (receive-hb_frame (choose_type h v) h.seq id v p r.task_u16)
      (let (a, b) = kept (choose_type h v) e in (a, b, refl))
  where
    kept :
        (t : HbType)
        → is_full t ≡ false
        → ((replaced t v p).rssi ≡ p.rssi) × ((replaced t v p).task_id ≡ p.task_id)
    kept no_change q = (refl, refl)
    kept battery_only q = (refl, refl)
    kept status_change q = (refl, refl)
    kept full q = cc
