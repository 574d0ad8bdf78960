-- ===== src/Bcp/Ids.antt =====
-- Command identifiers of firmware/components/bcp/include/bcp_codec.h.
use companion_robot.Base.{ℕ, ◌==◌, if◌then◌else◌}

-- The `case` labels of the codec's switches; `unknown` is every other identifier.
pub data Kind : Type 0 where
  heartbeat register reg_ack ping pong reset ota_start ota_chunk ota_done bcp_error : Kind
  move move_to stop servo_set servo_batch head_pan_tilt : Kind
  led_set led_pattern led_off face_expr face_custom speak tts_text : Kind
  env_data motion_event audio_event audio_stream image_snapshot depth_data : Kind
  touch_event imu_data obstacle task_assign task_status task_cancel swarm_form peer_msg : Kind
  unknown : Kind

kind_of_sensor : ℕ → Kind
kind_of_sensor id =
    if id == 0x0301
    then env_data
    else if id == 0x0302
    then motion_event
    else if id == 0x0303
    then audio_event
    else if id == 0x0304
    then audio_stream
    else if id == 0x0305
    then image_snapshot
    else if id == 0x0306
    then depth_data
    else if id == 0x0307
    then touch_event
    else if id == 0x0308
    then imu_data
    else if id == 0x0309
    then obstacle
    else if id == 0x0401
    then task_assign
    else if id == 0x0402
    then task_status
    else if id == 0x0403
    then task_cancel
    else if id == 0x0404
    then swarm_form
    else if id == 0x0405
    then peer_msg
    else unknown

kind_of_actuator : ℕ → Kind
unfolding kind_of_sensor
kind_of_actuator id =
    if id == 0x0101
    then move
    else if id == 0x0102
    then move_to
    else if id == 0x0103
    then stop
    else if id == 0x0104
    then servo_set
    else if id == 0x0105
    then servo_batch
    else if id == 0x0106
    then head_pan_tilt
    else if id == 0x0201
    then led_set
    else if id == 0x0202
    then led_pattern
    else if id == 0x0203
    then led_off
    else if id == 0x0204
    then face_expr
    else if id == 0x0205
    then face_custom
    else if id == 0x0206
    then speak
    else if id == 0x0207
    then tts_text
    else kind_of_sensor id

-- The label that `switch (cmd_id)` jumps to.
unfoldable pub kind_of : ℕ → Kind
unfolding kind_of_actuator
kind_of id =
    if id == 0x0001
    then heartbeat
    else if id == 0x0002
    then register
    else if id == 0x0003
    then reg_ack
    else if id == 0x0004
    then ping
    else if id == 0x0005
    then pong
    else if id == 0x0006
    then reset
    else if id == 0x0007
    then ota_start
    else if id == 0x0008
    then ota_chunk
    else if id == 0x0009
    then ota_done
    else if id == 0x00ff
    then bcp_error
    else kind_of_actuator id
