-- ===== src/Bcp/PayloadRoundTrip.antt =====
-- Decoding the bytes that `encode_cmd_payload` stores gives the members back.
use companion_robot.Base.{ℕ, ◌≡◌, refl, arith, length}
use companion_robot.Base.Bytes.{Memory, zeroed, store_bytes, load_bytes, load-store_bytes}
use companion_robot.Bcp.Ids.{Kind}
use companion_robot.Bcp.Payload.{payload_bytes, payload_union}
use companion_robot.Bcp.Members.{members, EnumsFit, AreBytes}

-- What `p` holds is the encoding of `u`.
abbrev Holds : Kind → ℕ → Memory → Memory → Type 0
Holds k n u p = load_bytes 0 (length (payload_bytes k n u)) p ≡ payload_bytes k n u

raw_members :
    (n : ℕ) (u p : Memory)
    → load_bytes 0 (length (load_bytes 0 n u)) p ≡ load_bytes 0 n u
    → load_bytes 0
        (length (load_bytes 0 n u))
        (store_bytes 0 (load_bytes 0 (length (load_bytes 0 n u)) p) zeroed)
      ≡ load_bytes 0 n u
raw_members n u p h = rw h (load-store_bytes (load_bytes 0 n u) 0 zeroed)

pub payload_members :
    (k : Kind) (n : ℕ) (u p : Memory)
    → AreBytes u
    → EnumsFit k u
    → Holds k n u p
    → let len = length (payload_bytes k n u) in
      members k len (payload_union k p len) ≡ members k n u
unfolding members payload_union payload_bytes EnumsFit store_bytes load_bytes
payload_members Kind.heartbeat n u p b e h = ground (arith, b 0, b 1, b 2, b 4, b 5)
payload_members Kind.register n u p b e h = ground (arith, b 0, b 1, b 2, b 3, b 4, b 5)
payload_members Kind.reg_ack n u p b e h = ground (arith, b 0, b 1, b 2, b 3)
payload_members Kind.ping n u p b e h = refl
payload_members Kind.pong n u p b e h = refl
payload_members Kind.reset n u p b e h = refl
payload_members Kind.move n u p b e h = ground (arith, b 0, b 1, b 2, b 3, b 4)
payload_members Kind.move_to n u p b e h = ground (arith, b 0, b 1, b 2, b 3, b 4)
payload_members Kind.stop n u p b e h = ground (arith, b 0)
payload_members Kind.servo_set n u p b e h = ground (arith, b 0, b 2, b 3)
payload_members Kind.head_pan_tilt n u p b e h = ground (arith, b 0, b 1)
payload_members Kind.led_set n u p b e h = ground (arith, b 0, b 1, b 2, b 3, b 4)
payload_members Kind.led_pattern n u p b e h =
    ground (arith, b 0, b 1, b 2, b 3, b 4, b 5, b 6, b 7)
payload_members Kind.led_off n u p b e h = refl
payload_members Kind.face_expr n u p b e h = ground (arith, b 0, b 1, b 2, b 3)
payload_members Kind.env_data n u p b e h =
    ground (arith, b 0, b 1, b 2, b 3, b 4, b 5, b 6, b 7, b 8, b 9, b 10, b 11, b 12, b 13)
payload_members Kind.motion_event n u p b e h = ground (arith, b 0, b 1)
payload_members Kind.audio_event n u p b e h = ground (arith, b 0, b 2, b 3)
payload_members Kind.touch_event n u p b e h = ground (arith, b 0, b 1, b 2)
payload_members Kind.imu_data n u p b e h =
    ground (arith, b 0, b 1, b 2, b 3, b 4, b 5, b 6, b 7, b 8, b 9, b 10, b 11)
payload_members Kind.obstacle n u p b e h = ground (arith, b 0, b 2, b 3)
payload_members Kind.task_status n u p b e h = ground (arith, b 0, b 1, b 2, b 3)
payload_members Kind.task_cancel n u p b e h = refl
payload_members _ n u p b e h = raw_members n u p h
