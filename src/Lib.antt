-- ===== src/Lib.antt =====
-- The firmware of the companion robot and of its charging station: the parts of firmware/ that
-- decide something, as functions on explicit states.
--
-- The robot talks to a gateway in frames of the binary protocol (firmware/components/bcp). Its
-- connection manager (firmware/components/comm) chooses between WebSocket and Bluetooth and sends
-- heartbeats. The power manager (firmware/components/power) polls the fuel gauge and the dock,
-- chooses the power state, puts the chip to sleep and sets two event bits, which the behaviour
-- engine (firmware/components/behavior) reads. That engine and the gateway put motor commands into
-- a queue, which the motor task (firmware/components/motion) empties, stopped by the obstacle
-- detection; the offline task, which firmware/main does not start, is to take the place of the
-- gateway while there is no connection. The
-- servos, the lights and the loudspeaker (firmware/components/expression), the touch pads, the
-- microphone and the distance, inertial and environment sensors (firmware/components/perception)
-- and the position estimate (firmware/components/localization) have tasks of their own; the
-- behaviour engine draws the display. firmware/components/diagnostic keeps a ring of log entries
-- and firmware/components/storage a buffer of encoded ones. The charging station
-- (firmware/charging-station) has a loop of its own: charge controller, LED, infrared beacon and
-- reports. firmware/main initializes the components of the robot, creates the queues and
-- starts the tasks.
--
-- Which file models what:
--   Base: native numbers, Boolean tests, lists, byte memory, strings, integers and 32-bit
--     arithmetic. Base/Signed: arithmetic and shifts of signed integers of a given width, with
--     wrap-around where C leaves the result open. Base/Float: the operations of a C `float`, a
--     parameter wherever one occurs.
--   Bcp/Ids, Bcp/Types: command identifiers, `bcp_command_t`, `bcp_frame_t` and the error codes
--     of firmware/components/bcp/include/bcp_codec.h. A payload union is a memory of bytes.
--   Bcp/Crc, Bcp/Payload, Bcp/Frame: `bcp_crc16`, `encode_cmd_payload`, `decode_cmd_payload`,
--     `bcp_encode`, `bcp_decode` of firmware/components/bcp/bcp_codec.c.
--   Bcp/Layout: the payload structures of the header bcp_codec.h as lists of fields, and the
--     encoding that these lists give.
--   Bcp/Helpers: its message helpers and `heartbeat_differ_diff`. The other Bcp files are proofs.
--   Power/Battery, Power/Charging, Power/Manager: battery.c, charging.c and power_mgr.c of
--     firmware/components/power. `poll` is a round of `task_power_mgr`. Power/States, Power/Sleep:
--     proofs.
--   Conn/Manager, Conn/Heartbeat: `task_conn_manager` (`round`) and `conn_send_heartbeat` of
--     firmware/components/comm/conn_manager.c. Conn/Graph, Conn/Timers, Conn/HeartbeatSync: proofs.
--   Conn/Links: ws_client.c and ble_gatt.c there. What they send they only log, so the states have
--     the lengths logged. Conn/Fragments: proofs.
--   Conn/Wifi: the WiFi events of conn_manager.c, and `comm_step`, an event or a round on the bits
--     that both share. Conn/Bridge: proofs.
--   Station/ChargeCtl, Station/Loop: charge_ctl.c, status_indicator.c, ir_beacon.c and main.c of
--     firmware/charging-station. Station/ChargeSafety, Station/Signals: proofs.
--   Station/Reporter: wifi_reporter.c there; `reporter_round` is a round of `reporter_task`.
--     Station/Reports: proofs.
--   Station/Blink: the blink task of main.c there and its rounds between those of the main loop.
--     Station/Start: the start of main.c there, and proofs.
--   Station/IrEncoder: the encoder of ir_beacon.c there.
--   Motion/Obstacle, Motion/MotorCtl: obstacle.c and motor.c of firmware/components/motion.
--     `motor_tick` is a round of `task_motor_ctrl` that keeps its decisions only. Motion/Wheels: the
--     same round with kinematics, controllers and duty cycles, `wheel_tick`. Motion/Decisions
--     relates the two. Motion/Hysteresis, Motion/MotorSafety, Motion/Timed, Motion/Creep: proofs.
--   Motion/Servo: servo.c there; `servo_round` is a round of `task_servo_ctrl`. Motion/ServoSafety,
--     Motion/ServoRamp: proofs.
--   Behavior/Engine: firmware/components/behavior/behavior.c; `behavior_tick` is a round of
--     `task_behavior`. Behavior/Modes, Behavior/Reach: proofs.
--   Behavior/Offline: offline.c there; `offline_round` is a round of `task_offline`.
--     Behavior/Keywords, Behavior/Autonomy: proofs.
--   Diag/LogRing: firmware/components/diagnostic/log_upload.c. Diag/RingView, Diag/Upload:
--     proofs.
--   Storage/LogBuf, Storage/Query: firmware/components/storage/log_buf.c. Storage/Ota: ota.c
--     there. The other Storage files are proofs.
--   Expression/Led: firmware/components/expression/led.c; `led_round` is a round of `task_led`.
--     Expression/LedBuffer: proofs.
--   Expression/Face: face.c there. Expression/FacePages, Expression/Faces: proofs.
--   Expression/Speaker: speaker.c there; `audio_out_round` is a round of `task_audio_out`.
--     Expression/Playback: proofs.
--   Perception/Touch, Perception/Tof, Perception/Microphone: touch.c, tof.c and microphone.c of
--     firmware/components/perception. `pad_round` is a pad's share of a round of `task_touch`, and
--     `mic_round` a round of `task_audio_in`. Perception/Debounce, Perception/Ranging,
--     Perception/AudioBuffers: proofs.
--   Perception/Camera: camera.c there; `vision_round` is a round of `task_vision`.
--     Perception/OneFrame: proofs.
--   Perception/Imu, Perception/Env: imu.c and env_sensor.c there; `imu_round` and `env_round` are
--     rounds of `task_imu` and `task_env_sensor`. Perception/Blind, Perception/Climate: proofs.
--   Localization/Estimate: firmware/components/localization/localization.c; `loc_round` is a round
--     of `task_localization`. Localization/Heading: proofs. Localization/Standstill: proofs, and runs
--     of the task.
--   Startup/Boot: firmware/main/main.c and the sizes of firmware/main/config.h. Startup/Order:
--     proofs.
--   Examples: the theorems at concrete inputs.
--
-- Integers are native natural numbers with their wrap-around written out. A task's loop is a
-- function on one round's inputs (what sensors, queues, clocks and event bits answer), and a run
-- is a list of rounds. FreeRTOS's `pdMS_TO_TICKS` is a parameter. The loop over the commands of a
-- frame runs on the count in its header, and the upload of log entries on fuel 33: at most 32
-- entries are pushed, and one more pop ends the loop.
-- A query of the log buffer runs on a fuel that its size gives, since each entry has at least the
-- bytes of its overhead. The loop over the fragments of a frame, and the two loops that wrap the
-- heading, run on a fuel that the theorems name: more than the bytes of the frame, and two rounds of
-- each of the heading's loops, enough from at most 540 degrees.
-- Playing a file runs on a fuel too: more than the bytes of its data, since a read that gives
-- nothing ends the loop. How many bytes `fread` gives is a parameter, `fread_count`.
--
-- Not modelled: the battery's voltage as a float; the set-up of buses, timers, radio and sockets,
-- which are calls of the platform; the text of the station's report; configuration storage;
-- interrupts and the scheduling of tasks against each other; and the Rust crates, services and
-- mobile application of the repository.
pub mod Base
pub mod Bcp
pub mod Power
pub mod Conn
pub mod Station
pub mod Motion
pub mod Behavior
pub mod Expression
pub mod Perception
pub mod Localization
pub mod Diag
pub mod Storage
pub mod Startup
pub mod Examples
