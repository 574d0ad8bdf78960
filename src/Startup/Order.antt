-- ===== src/Startup/Order.antt =====
-- The order of the start: what a task uses is there before the task is.
use companion_robot.Base.{
  ℕ, ◌≡◌, refl, ap, sym, ◌∙◌, Bool, true, false, ◌&&◌, ◌||◌, List, [], ◌∷◌, ◌++◌, All, ◌==◌,
  if◌then◌else◌, arith,
}
use mathlib.Core.List.{append-nil, append_assoc}
use companion_robot.Startup.Boot.{
  Driver, imu, env_sensor, tof, touch, led, face, speaker, microphone, camera, localization,
  log_upload, motor, servo, battery, charging, power_mgr, Queue, q_cmd_incoming, q_cmd_outgoing,
  q_sensor_event, q_audio_frame, q_vision_frame, Task, task_comm_rx, task_comm_tx,
  task_conn_manager, task_vision, task_audio_in, task_audio_out, task_imu, task_motor_ctrl,
  task_servo_ctrl, task_env_sensor, task_touch, task_led, task_localization, task_behavior,
  task_power_mgr, BootAct, nvs_flash_init, i2c_param_config, i2c_driver_install, spi_bus_initialize,
  init_driver, create_queue, create_event_group, create_task, BootAnswers, checked, nvs_is_ok,
  wants_erase, retry_nvs, init_nvs, init_i2c, init_spi, drivers, queues, core0_tasks, core1_tasks,
  app_main,
}

-- What a task uses: a component that has been initialized, a queue, or the event group.
pub data Resource : Type 0 where
  of_driver : (d : Driver) → Resource
  of_queue : (q : Queue) → Resource
  of_events : Resource

abbrev driver_code : Driver → ℕ
driver_code imu = 0
driver_code env_sensor = 1
driver_code tof = 2
driver_code touch = 3
driver_code led = 4
driver_code face = 5
driver_code speaker = 6
driver_code microphone = 7
driver_code camera = 8
driver_code localization = 9
driver_code log_upload = 10
driver_code motor = 11
driver_code servo = 12
driver_code battery = 13
driver_code charging = 14
driver_code power_mgr = 15

abbrev queue_code : Queue → ℕ
queue_code q_cmd_incoming = 0
queue_code q_cmd_outgoing = 1
queue_code q_sensor_event = 2
queue_code q_audio_frame = 3
queue_code q_vision_frame = 4

-- Whether a call of the start provides a resource.
abbrev pub gives : Resource → BootAct → Bool
gives (of_driver d) (init_driver e) = driver_code d == driver_code e
gives (of_queue q) (create_queue r depth item_size) = queue_code q == queue_code r
gives of_events create_event_group = true
gives r a = false

unfoldable pub provided : Resource → List BootAct → Bool
provided r [] = false
provided r (a ∷ done) = gives r a || provided r done

-- What each task works with, by the calls and the globals of its function and of the functions it
-- calls: components with an initialization in `app_main`, queues and the event group. A task that
-- calls `obstacle_check` reads `tof`.
abbrev comm_rx_needs : List Resource
comm_rx_needs = of_queue q_cmd_incoming ∷ []

abbrev comm_tx_needs : List Resource
comm_tx_needs = of_queue q_cmd_outgoing ∷ []

abbrev conn_manager_needs : List Resource
conn_manager_needs = of_driver battery ∷ of_events ∷ []

abbrev vision_needs : List Resource
vision_needs = of_driver camera ∷ of_queue q_vision_frame ∷ []

abbrev audio_in_needs : List Resource
audio_in_needs = of_driver microphone ∷ of_queue q_audio_frame ∷ []

abbrev audio_out_needs : List Resource
audio_out_needs = of_driver speaker ∷ []

abbrev imu_needs : List Resource
imu_needs = of_driver imu ∷ []

abbrev motor_ctrl_needs : List Resource
motor_ctrl_needs =
    of_driver motor ∷ of_driver tof ∷ of_driver localization ∷ of_queue q_cmd_incoming ∷ []

abbrev servo_ctrl_needs : List Resource
servo_ctrl_needs = of_driver servo ∷ []

abbrev env_sensor_needs : List Resource
env_sensor_needs = of_driver env_sensor ∷ []

abbrev touch_needs : List Resource
touch_needs = of_driver touch ∷ of_queue q_sensor_event ∷ []

abbrev led_needs : List Resource
led_needs = of_driver led ∷ []

abbrev localization_needs : List Resource
localization_needs =
    of_driver localization ∷ of_driver imu ∷ of_driver tof ∷ of_queue q_cmd_incoming ∷ []

abbrev behavior_needs : List Resource
behavior_needs =
    of_driver servo
    ∷ of_driver tof
    ∷ of_driver power_mgr
    ∷ of_driver led
    ∷ of_driver face
    ∷ of_queue q_sensor_event
    ∷ of_queue q_cmd_incoming
    ∷ of_events
    ∷ []

abbrev power_mgr_needs : List Resource
power_mgr_needs =
    of_driver power_mgr
    ∷ of_driver battery
    ∷ of_driver charging
    ∷ of_queue q_cmd_incoming
    ∷ of_events
    ∷ []

-- The resources that the code of a task uses.
abbrev pub needs : Task → List Resource
needs task_comm_rx = comm_rx_needs
needs task_comm_tx = comm_tx_needs
needs task_conn_manager = conn_manager_needs
needs task_vision = vision_needs
needs task_audio_in = audio_in_needs
needs task_audio_out = audio_out_needs
needs task_imu = imu_needs
needs task_motor_ctrl = motor_ctrl_needs
needs task_servo_ctrl = servo_ctrl_needs
needs task_env_sensor = env_sensor_needs
needs task_touch = touch_needs
needs task_led = led_needs
needs task_localization = localization_needs
needs task_behavior = behavior_needs
needs task_power_mgr = power_mgr_needs

unfoldable all_provided : List Resource → List BootAct → Bool
unfolding provided
all_provided [] done = true
all_provided (r ∷ rs) done = provided r done && all_provided rs done

abbrev ready : List BootAct → BootAct → Bool
ready done (create_task t stack prio core) = all_provided (needs t) done
ready done a = true

-- Whether every task of a list is ready, after the calls of `done`.
unfoldable in_order : (done : List BootAct) → List BootAct → Bool
unfolding all_provided
in_order done [] = true
in_order done (a ∷ rest) = ready done a && in_order (done ++ (a ∷ [])) rest

checked-in_order :
    (ok : Bool) (done rest : List BootAct)
    → in_order done rest ≡ true
    → in_order done (checked ok rest) ≡ true
unfolding in_order checked
checked-in_order true done rest h = h
checked-in_order false done rest h = refl

-- Whether the last task is created.
unfoldable pub completes : List BootAct → Bool
completes [] = false
completes (create_task task_power_mgr stack prio core ∷ rest) = true
completes (a ∷ rest) = completes rest

abbrev pub rest_of : (size_of_command size_of_frame : ℕ) → List BootAct
rest_of c f = drivers ++ (queues c f ++ (core0_tasks ++ core1_tasks))

buses_in_order :
    (c f : ℕ) (a : BootAnswers) (done : List BootAct)
    → in_order
        (done ++ (i2c_param_config ∷ []) ++ (i2c_driver_install ∷ []) ++ (spi_bus_initialize ∷ []))
        (rest_of c f)
      ≡ true
    → in_order done (init_i2c a (init_spi a (rest_of c f))) ≡ true
unfolding in_order init_i2c init_spi
buses_in_order c f a done h =
    checked-in_order a.i2c_config_ok _ _
      (checked-in_order a.i2c_install_ok _ _ (checked-in_order a.spi_ok _ _ h))

retry_in_order :
    (e : Bool) (c f : ℕ) (a : BootAnswers)
    → in_order (nvs_flash_init ∷ []) (retry_nvs e a (init_i2c a (init_spi a (rest_of c f)))) ≡ true
unfolding in_order all_provided provided
retry_in_order true c f a =
    checked-in_order a.erase_ok _ _
      (checked-in_order (nvs_is_ok a.nvs_second) _ _ (buses_in_order c f a _ refl))
retry_in_order false c f a =
    checked-in_order (nvs_is_ok a.nvs_first) _ _ (buses_in_order c f a _ refl)

app_main-in_order : (c f : ℕ) (a : BootAnswers) → in_order [] (app_main c f a) ≡ true
unfolding app_main in_order init_nvs
app_main-in_order c f a = retry_in_order (wants_erase a.nvs_first) c f a

left_of : (a b : Bool) → a && b ≡ true → a ≡ true
left_of true b h = refl
left_of false b h = h

right_of : (a b : Bool) → a && b ≡ true → b ≡ true
right_of true b h = h
right_of false b h = ground arith

ready_after :
    (done before after : List BootAct) (x : BootAct)
    → in_order done (before ++ (x ∷ after)) ≡ true
    → ready (done ++ before) x ≡ true
unfolding in_order
ready_after done [] after x h =
    ap (λ (l : List BootAct). ready l x) (append-nil done) ∙ left_of _ _ h
ready_after done (b ∷ before) after x h =
    ap (λ (l : List BootAct). ready l x) (sym (append_assoc done (b ∷ []) before))
    ∙ ready_after (done ++ (b ∷ [])) before after x (right_of _ _ h)

each_provided :
    (rs : List Resource) (done : List BootAct)
    → all_provided rs done ≡ true
    → All (λ (r : Resource). provided r done ≡ true) rs
unfolding all_provided
each_provided [] done h = tt
each_provided (r ∷ rs) done h = (left_of _ _ h, each_provided rs done (right_of _ _ h))

-- Whatever the platform answers, every resource that `needs` lists for a task is there before the
-- task is created: the initialization of those components, those queues and the event group are
-- among the calls before.
pub needs-provided :
    (c f : ℕ) (a : BootAnswers) (t : Task) (stack prio core : ℕ) (before after : List BootAct)
    → app_main c f a ≡ before ++ (create_task t stack prio core ∷ after)
    → All (λ (r : Resource). provided r before ≡ true) (needs t)
needs-provided c f a t stack prio core before after e = each_provided (needs t) before (
    ready_after [] before after (create_task t stack prio core)
      (ap (in_order []) (sym e) ∙ app_main-in_order c f a))

-- Whether the flash storage comes up, after an erasure if it asks for one.
abbrev pub nvs_usable : BootAnswers → Bool
nvs_usable a =
    if wants_erase a.nvs_first then a.erase_ok && nvs_is_ok a.nvs_second else nvs_is_ok a.nvs_first
