-- ===== src/Bcp/Payload.antt =====
-- Payload sizes, encoding and decoding of firmware/components/bcp/bcp_codec.c.
use companion_robot.Base.{ℕ, ◌+◌, ◌-◌, ◌*◌, ◌/◌, ◌%◌, List, [], ◌∷◌, ◌++◌}
use companion_robot.Base.Bytes.{Memory, zeroed, store_bytes, load_bytes}
use companion_robot.Bcp.Ids.{Kind, kind_of}
use companion_robot.Bcp.Types.{Command, write_u16, read_u16, get8, get16, get32, set8, set16, set32}

abbrev pub write_u32 : ℕ → List ℕ
write_u32 v = v % 256 ∷ v / 256 % 256 ∷ v / 65536 % 256 ∷ v / 16777216 % 256 ∷ []

abbrev pub read_u32 : Memory → ℕ → ℕ
read_u32 m a = m a + m (a + 1) * 256 + m (a + 2) * 65536 + m (a + 3) * 16777216

-- The `switch` of `cmd_payload_len`; `n` is the command's `payload_len`.
unfoldable pub payload_len_of : Kind → ℕ → ℕ
payload_len_of Kind.heartbeat n = 5
payload_len_of Kind.register n = 6
payload_len_of Kind.reg_ack n = 4
payload_len_of Kind.ping n = 4
payload_len_of Kind.pong n = 4
payload_len_of Kind.reset n = 1
payload_len_of Kind.ota_start n = 20
payload_len_of Kind.ota_chunk n = 4 + n - 4
payload_len_of Kind.ota_done n = 0
payload_len_of Kind.bcp_error n = 5
payload_len_of Kind.move n = 2
payload_len_of Kind.move_to n = 5
payload_len_of Kind.stop n = 1
payload_len_of Kind.servo_set n = 3
payload_len_of Kind.servo_batch n = n
payload_len_of Kind.head_pan_tilt n = 2
payload_len_of Kind.led_set n = 5
payload_len_of Kind.led_pattern n = 5
payload_len_of Kind.led_off n = 0
payload_len_of Kind.face_expr n = 1
payload_len_of Kind.face_custom n = n
payload_len_of Kind.speak n = 2 + n - 2
payload_len_of Kind.tts_text n = 1 + n - 1
payload_len_of Kind.env_data n = 14
payload_len_of Kind.motion_event n = 2
payload_len_of Kind.audio_event n = 3
payload_len_of Kind.audio_stream n = 1 + n - 1
payload_len_of Kind.image_snapshot n = 5 + n - 5
payload_len_of Kind.depth_data n = 4 + n - 4
payload_len_of Kind.touch_event n = 3
payload_len_of Kind.imu_data n = 12
payload_len_of Kind.obstacle n = 3
payload_len_of Kind.task_assign n = 2 + n - 2
payload_len_of Kind.task_status n = 4
payload_len_of Kind.task_cancel n = 2
payload_len_of Kind.swarm_form n = 1 + n - 1
payload_len_of Kind.peer_msg n = 2 + n - 2
payload_len_of Kind.unknown n = 0

unfoldable pub cmd_payload_len : Command → ℕ
cmd_payload_len c = payload_len_of (kind_of c.cmd_id) c.payload_len

-- The bytes that the `switch` of `encode_cmd_payload` stores, from `buf[0]` on.
unfoldable pub payload_bytes : Kind → ℕ → Memory → List ℕ
payload_bytes Kind.heartbeat n u = get8 u 0 ∷ get8 u 1 ∷ get8 u 2 ∷ write_u16 (get16 u 4)
payload_bytes Kind.register n u = write_u16 (get16 u 0) ++ load_bytes 2 4 u
payload_bytes Kind.reg_ack n u = write_u16 (get16 u 0) ++ write_u16 (get16 u 2)
payload_bytes Kind.ping n u = write_u32 0
payload_bytes Kind.pong n u = write_u32 0
payload_bytes Kind.reset n u = 0 ∷ []
payload_bytes Kind.move n u = get32 u 0 % 256 ∷ get8 u 4 ∷ []
payload_bytes Kind.move_to n u = write_u16 (get16 u 0) ++ (write_u16 (get16 u 2) ++ (get8 u 4 ∷ []))
payload_bytes Kind.stop n u = get8 u 0 ∷ []
payload_bytes Kind.servo_set n u = get8 u 0 ∷ write_u16 (get16 u 2)
payload_bytes Kind.head_pan_tilt n u = get8 u 0 ∷ get8 u 1 ∷ []
payload_bytes Kind.led_set n u = write_u16 (get16 u 0) ++ (get8 u 2 ∷ get8 u 3 ∷ get8 u 4 ∷ [])
payload_bytes Kind.led_pattern n u =
    get32 u 0 % 256 ∷ get8 u 4 ∷ get8 u 5 ∷ get8 u 6 ∷ get8 u 7 ∷ []
payload_bytes Kind.led_off n u = []
payload_bytes Kind.face_expr n u = get32 u 0 % 256 ∷ []
payload_bytes Kind.env_data n u =
    write_u16 (get16 u 0)
    ++ (write_u16 (get16 u 2)
        ++ (write_u32 (get32 u 4) ++ (write_u32 (get32 u 8) ++ write_u16 (get16 u 12))))
payload_bytes Kind.motion_event n u = get8 u 0 ∷ get8 u 1 ∷ []
payload_bytes Kind.audio_event n u = get8 u 0 ∷ write_u16 (get16 u 2)
payload_bytes Kind.touch_event n u = get8 u 0 ∷ get8 u 1 ∷ get8 u 2 ∷ []
payload_bytes Kind.imu_data n u =
    write_u16 (get16 u 0)
    ++ (write_u16 (get16 u 2)
        ++ (write_u16 (get16 u 4)
            ++ (write_u16 (get16 u 6) ++ (write_u16 (get16 u 8) ++ write_u16 (get16 u 10)))))
payload_bytes Kind.obstacle n u = get8 u 0 ∷ write_u16 (get16 u 2)
payload_bytes Kind.task_status n u = write_u16 (get16 u 0) ++ (get8 u 2 ∷ get8 u 3 ∷ [])
payload_bytes Kind.task_cancel n u = write_u16 0
payload_bytes _ n u = load_bytes 0 n u

unfoldable pub encode_cmd_payload : Command → List ℕ
encode_cmd_payload c = payload_bytes (kind_of c.cmd_id) c.payload_len c.payload

-- The union that the `switch` of `decode_cmd_payload` fills, from the wire bytes at `p`.
unfoldable pub payload_union : Kind → Memory → ℕ → Memory
payload_union Kind.heartbeat p len =
    set16 4 (read_u16 p 3) (set8 2 (p 2) (set8 1 (p 1) (set8 0 (p 0) zeroed)))
payload_union Kind.register p len = store_bytes 2 (load_bytes 2 4 p) (set16 0 (read_u16 p 0) zeroed)
payload_union Kind.reg_ack p len = set16 2 (read_u16 p 2) (set16 0 (read_u16 p 0) zeroed)
payload_union Kind.move p len = set8 4 (p 1) (set32 0 (p 0) zeroed)
payload_union Kind.move_to p len =
    set8 4 (p 4) (set16 2 (read_u16 p 2) (set16 0 (read_u16 p 0) zeroed))
payload_union Kind.stop p len = set8 0 (p 0) zeroed
payload_union Kind.servo_set p len = set16 2 (read_u16 p 1) (set8 0 (p 0) zeroed)
payload_union Kind.head_pan_tilt p len = set8 1 (p 1) (set8 0 (p 0) zeroed)
payload_union Kind.led_set p len =
    set8 4 (p 4) (set8 3 (p 3) (set8 2 (p 2) (set16 0 (read_u16 p 0) zeroed)))
payload_union Kind.led_pattern p len =
    set8 7 (p 4) (set8 6 (p 3) (set8 5 (p 2) (set8 4 (p 1) (set32 0 (p 0) zeroed))))
payload_union Kind.face_expr p len = set32 0 (p 0) zeroed
payload_union Kind.env_data p len = set16 12 (read_u16 p 12) (
    set32 8 (read_u32 p 8)
      (set32 4 (read_u32 p 4) (set16 2 (read_u16 p 2) (set16 0 (read_u16 p 0) zeroed))))
payload_union Kind.motion_event p len = set8 1 (p 1) (set8 0 (p 0) zeroed)
payload_union Kind.audio_event p len = set16 2 (read_u16 p 1) (set8 0 (p 0) zeroed)
payload_union Kind.touch_event p len = set8 2 (p 2) (set8 1 (p 1) (set8 0 (p 0) zeroed))
payload_union Kind.imu_data p len = set16 10 (read_u16 p 10) (
    set16 8 (read_u16 p 8) (
      set16 6 (read_u16 p 6)
        (set16 4 (read_u16 p 4) (set16 2 (read_u16 p 2) (set16 0 (read_u16 p 0) zeroed)))))
payload_union Kind.obstacle p len = set16 2 (read_u16 p 1) (set8 0 (p 0) zeroed)
payload_union Kind.task_status p len = set8 3 (p 3) (set8 2 (p 2) (set16 0 (read_u16 p 0) zeroed))
payload_union Kind.task_cancel p len = zeroed
payload_union _ p len = store_bytes 0 (load_bytes 0 len p) zeroed

-- The command with `cmd_id` set by the caller, and the payload as decoded.
unfoldable pub decode_cmd_payload : ℕ → Memory → ℕ → Command
decode_cmd_payload id p len = record {
  cmd_id = id;
  payload_len = len % 256;
  payload = payload_union (kind_of id) p len;
}
