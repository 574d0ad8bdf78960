-- ===== src/Startup/Boot.antt =====
-- The entry point: firmware/main/main.c, with the sizes of firmware/main/config.h. What the calls
-- of the platform answer is an input, the calls are recorded, and the sizes of `bcp_command_t` and
-- `bcp_frame_t` are parameters.
use companion_robot.Base.{ℕ, ◌/◌, Bool, true, false, List, [], ◌∷◌, ◌++◌}

-- The components with an initialization, in the order of their calls.
pub data Driver : Type 0 where
  imu : Driver
  env_sensor : Driver
  tof : Driver
  touch : Driver
  led : Driver
  face : Driver
  speaker : Driver
  microphone : Driver
  camera : Driver
  localization : Driver
  log_upload : Driver
  motor : Driver
  servo : Driver
  battery : Driver
  charging : Driver
  power_mgr : Driver

-- The global queues.
pub data Queue : Type 0 where
  q_cmd_incoming : Queue
  q_cmd_outgoing : Queue
  q_sensor_event : Queue
  q_audio_frame : Queue
  q_vision_frame : Queue

pub data Task : Type 0 where
  task_comm_rx : Task
  task_comm_tx : Task
  task_conn_manager : Task
  task_vision : Task
  task_audio_in : Task
  task_audio_out : Task
  task_imu : Task
  task_motor_ctrl : Task
  task_servo_ctrl : Task
  task_env_sensor : Task
  task_touch : Task
  task_led : Task
  task_localization : Task
  task_behavior : Task
  task_power_mgr : Task

-- The calls; `abort` is what ESP_ERROR_CHECK does on an error.
pub data BootAct : Type 0 where
  nvs_flash_init : BootAct
  nvs_flash_erase : BootAct
  i2c_param_config : BootAct
  i2c_driver_install : BootAct
  spi_bus_initialize : BootAct
  init_driver : (d : Driver) → BootAct
  create_queue : (q : Queue) → (depth item_size : ℕ) → BootAct
  create_event_group : BootAct
  wdt_init : (seconds : ℕ) → BootAct
  create_task : (t : Task) → (stack prio core : ℕ) → BootAct
  register_watchdog : (t : Task) → BootAct
  abort : BootAct

-- The results of `nvs_flash_init` that `init_nvs` tells apart.
pub data NvsResult : Type 0 where
  nvs_ok : NvsResult
  no_free_pages : NvsResult
  new_version_found : NvsResult
  nvs_failed : NvsResult

pub record BootAnswers : Type 0 where
  pub nvs_first : NvsResult
  pub nvs_second : NvsResult
  pub erase_ok : Bool
  pub i2c_config_ok : Bool
  pub i2c_install_ok : Bool
  pub spi_ok : Bool

-- ESP_ERROR_CHECK, and what follows it.
unfoldable pub checked : Bool → List BootAct → List BootAct
checked true rest = rest
checked false rest = abort ∷ []

abbrev pub nvs_is_ok : NvsResult → Bool
nvs_is_ok nvs_ok = true
nvs_is_ok no_free_pages = false
nvs_is_ok new_version_found = false
nvs_is_ok nvs_failed = false

abbrev pub wants_erase : NvsResult → Bool
wants_erase nvs_ok = false
wants_erase no_free_pages = true
wants_erase new_version_found = true
wants_erase nvs_failed = false

abbrev pub retry_nvs : Bool → BootAnswers → List BootAct → List BootAct
retry_nvs true a rest =
    nvs_flash_erase ∷ checked a.erase_ok (nvs_flash_init ∷ checked (nvs_is_ok a.nvs_second) rest)
retry_nvs false a rest = checked (nvs_is_ok a.nvs_first) rest

unfoldable pub init_nvs : BootAnswers → List BootAct → List BootAct
init_nvs a rest = nvs_flash_init ∷ retry_nvs (wants_erase a.nvs_first) a rest

unfoldable pub init_i2c : BootAnswers → List BootAct → List BootAct
init_i2c a rest =
    i2c_param_config ∷ checked a.i2c_config_ok (i2c_driver_install ∷ checked a.i2c_install_ok rest)

unfoldable pub init_spi : BootAnswers → List BootAct → List BootAct
init_spi a rest = spi_bus_initialize ∷ checked a.spi_ok rest

-- "Initialize component drivers".
abbrev pub drivers : List BootAct
drivers =
    init_driver imu
    ∷ init_driver env_sensor
    ∷ init_driver tof
    ∷ init_driver touch
    ∷ init_driver led
    ∷ init_driver face
    ∷ init_driver speaker
    ∷ init_driver microphone
    ∷ init_driver camera
    ∷ init_driver localization
    ∷ init_driver log_upload
    ∷ init_driver motor
    ∷ init_driver servo
    ∷ init_driver battery
    ∷ init_driver charging
    ∷ init_driver power_mgr
    ∷ []

-- "Task Stack Sizes (words)".
abbrev pub stack_of : Task → ℕ
stack_of task_comm_rx = 4096
stack_of task_comm_tx = 4096
stack_of task_conn_manager = 4096
stack_of task_vision = 8192
stack_of task_audio_in = 8192
stack_of task_audio_out = 4096
stack_of task_imu = 2048
stack_of task_motor_ctrl = 4096
stack_of task_servo_ctrl = 2048
stack_of task_env_sensor = 2048
stack_of task_touch = 2048
stack_of task_led = 2048
stack_of task_localization = 4096
stack_of task_behavior = 4096
stack_of task_power_mgr = 2048

-- "Task Priorities".
abbrev pub prio_of : Task → ℕ
prio_of task_comm_rx = 5
prio_of task_comm_tx = 4
prio_of task_conn_manager = 3
prio_of task_vision = 4
prio_of task_audio_in = 5
prio_of task_audio_out = 3
prio_of task_imu = 3
prio_of task_motor_ctrl = 5
prio_of task_servo_ctrl = 3
prio_of task_env_sensor = 1
prio_of task_touch = 4
prio_of task_led = 2
prio_of task_localization = 3
prio_of task_behavior = 2
prio_of task_power_mgr = 1

-- "Queue Depths".
abbrev pub depth_of : Queue → ℕ
depth_of q_cmd_incoming = 16
depth_of q_cmd_outgoing = 32
depth_of q_sensor_event = 8
depth_of q_audio_frame = 4
depth_of q_vision_frame = 2

abbrev pub watchdog_timeout_ms : ℕ
watchdog_timeout_ms = 2000

abbrev pub task_on : (core : ℕ) → Task → BootAct
task_on core t = create_task t (stack_of t) (prio_of t) core

-- "Create queues".
abbrev pub queues : (size_of_command size_of_frame : ℕ) → List BootAct
queues size_of_command size_of_frame =
    create_queue q_cmd_incoming (depth_of q_cmd_incoming) size_of_command
    ∷ create_queue q_cmd_outgoing (depth_of q_cmd_outgoing) size_of_frame
    ∷ create_queue q_sensor_event (depth_of q_sensor_event) 4
    ∷ create_queue q_audio_frame (depth_of q_audio_frame) 4
    ∷ create_queue q_vision_frame (depth_of q_vision_frame) 4
    ∷ create_event_group
    ∷ wdt_init (watchdog_timeout_ms / 1000)
    ∷ []

-- "Core 0: Communication tasks".
abbrev pub core0_tasks : List BootAct
core0_tasks =
    task_on 0 task_comm_rx
    ∷ register_watchdog task_comm_rx
    ∷ task_on 0 task_comm_tx
    ∷ register_watchdog task_comm_tx
    ∷ task_on 0 task_conn_manager
    ∷ register_watchdog task_conn_manager
    ∷ []

-- "Core 1: Perception + Execution tasks".
abbrev pub core1_tasks : List BootAct
core1_tasks =
    task_on 1 task_vision
    ∷ register_watchdog task_vision
    ∷ task_on 1 task_audio_in
    ∷ register_watchdog task_audio_in
    ∷ task_on 1 task_audio_out
    ∷ task_on 1 task_imu
    ∷ register_watchdog task_imu
    ∷ task_on 1 task_motor_ctrl
    ∷ register_watchdog task_motor_ctrl
    ∷ task_on 1 task_servo_ctrl
    ∷ task_on 1 task_env_sensor
    ∷ task_on 1 task_touch
    ∷ task_on 1 task_led
    ∷ task_on 1 task_localization
    ∷ register_watchdog task_localization
    ∷ task_on 1 task_behavior
    ∷ task_on 1 task_power_mgr
    ∷ []

unfoldable pub app_main : (size_of_command size_of_frame : ℕ) → BootAnswers → List BootAct
unfolding init_nvs init_i2c init_spi
app_main size_of_command size_of_frame a = init_nvs a (
    init_i2c a (
      init_spi a
        (drivers ++ (queues size_of_command size_of_frame ++ (core0_tasks ++ core1_tasks)))))
