-- ===== src/Behavior/Offline.antt =====
-- Offline mode: firmware/components/behavior/offline.c. A C string is the list of its bytes before
-- the final 0.
use companion_robot.Base.{
  ℕ, ◌+◌, ◌%◌, Bool, true, false, ◌&&◌, ◌||◌, Option, none, some, List, [], ◌∷◌, ◌++◌, ltb, leb,
  ◌==◌, if◌then◌else◌, add32,
}
use companion_robot.Base.Text.{codes}
use companion_robot.Conn.Manager.{ConnState, offline}
use companion_robot.Motion.MotorCtl.{MotorCmd, move, stop, bcp_dir_stop}
use companion_robot.Motion.Obstacle.{ObstacleStatus}
use companion_robot.Behavior.Engine.{Face, neutral, sleepy, LedMode, blinking}

-- `offline_keyword_t`.
pub record Keyword : Type 0 where
  pub keyword : List ℕ
  pub cmd_id : ℕ
  pub arg1 : ℕ
  pub arg2 : ℕ

-- The calls into other components; `log_sensor_data` has the six numbers of its line.
pub data OfflineAct : Type 0 where
  send_motor : MotorCmd → OfflineAct
  led_off : OfflineAct
  led_set_solid : (r g b : ℕ) → OfflineAct
  led_set_pattern : LedMode → (speed r g b : ℕ) → OfflineAct
  face_set_expression : Face → OfflineAct
  log_sensor_data : (now emergency slow cm0 cm1 cm2 : ℕ) → OfflineAct

abbrev pub bcp_dir_forward : ℕ
bcp_dir_forward = 0

abbrev pub bcp_dir_rotate_left : ℕ
bcp_dir_rotate_left = 4

abbrev pub bcp_dir_rotate_right : ℕ
bcp_dir_rotate_right = 5

abbrev pub keywords : List Keyword
keywords =
    record { keyword = codes "stop"; cmd_id = 0x0001; arg1 = bcp_dir_stop; arg2 = 0 }
    ∷ (record { keyword = codes "come here"; cmd_id = 0x0001; arg1 = bcp_dir_forward; arg2 = 60 }
        ∷ (record {
          keyword = codes "follow me";
          cmd_id = 0x0001;
          arg1 = bcp_dir_forward;
          arg2 = 60;
        }
            ∷ (record {
              keyword = codes "dance";
              cmd_id = 0x0001;
              arg1 = bcp_dir_rotate_left;
              arg2 = 80;
            }
                ∷ (record {
                  keyword = codes "patrol";
                  cmd_id = 0x0001;
                  arg1 = bcp_dir_forward;
                  arg2 = 30;
                }
                    ∷ (record {
                      keyword = codes "go charge";
                      cmd_id = 0x0001;
                      arg1 = bcp_dir_forward;
                      arg2 = 20;
                    }
                        ∷ (record {
                          keyword = codes "lights on";
                          cmd_id = 0x0002;
                          arg1 = 255;
                          arg2 = 255;
                        }
                            ∷ (record {
                              keyword = codes "lights off";
                              cmd_id = 0x0002;
                              arg1 = 0;
                              arg2 = 0;
                            }
                                ∷ (record {
                                  keyword = codes "status";
                                  cmd_id = 0x00FF;
                                  arg1 = 0;
                                  arg2 = 0;
                                }
                                    ∷ []))))))))

-- `(*a >= 'A' && *a <= 'Z') ? (*a + 32) : *a`.
unfoldable pub lower : ℕ → ℕ
lower c = if leb b'A' c && leb c b'Z' then c + 32 else c

-- The compare of `a` in the keyword with `b` in the text, up to the end of the keyword.
unfoldable pub is_prefix : List ℕ → List ℕ → Bool
is_prefix [] b = true
is_prefix (x ∷ a) [] = false
is_prefix (x ∷ a) (y ∷ b) = (lower x == lower y) && is_prefix a b

-- `while (*pos)`: whether the keyword matches at some position of the text.
unfoldable pub occurs_in : List ℕ → List ℕ → Bool
occurs_in kw [] = false
occurs_in kw (c ∷ text) = is_prefix kw (c ∷ text) || occurs_in kw text

-- The loop over the table.
unfoldable pub match_in : List Keyword → List ℕ → Option Keyword
match_in [] text = none
match_in (k ∷ ks) text = if occurs_in k.keyword text then some k else match_in ks text

unfoldable pub match_keyword : List ℕ → Option Keyword
unfolding match_in
match_keyword text = match_in keywords text

-- `execute_offline_command`: whether it returns 0 and not -1, and the calls it makes.
unfoldable pub execute_offline_command : Option Keyword → Bool × List OfflineAct
execute_offline_command none = (false, [])
execute_offline_command (some k) =
    if k.cmd_id == 0x0001
    then (true, send_motor (move k.arg1 (k.arg2 % 256) (if k.arg2 == 0 then 0 else 2000)) ∷ [])
    else if k.cmd_id == 0x0002
    then (true, (if k.arg1 == 0 then led_off else led_set_solid 255 255 255) ∷ [])
    else if k.cmd_id == 0x00FF
    then (true, led_set_pattern blinking 100 0 255 0 ∷ [])
    else (false, [])

-- The loop of `offline_process_command` over the table, by the identifier.
unfoldable pub process_in : List Keyword → ℕ → Bool × List OfflineAct
process_in [] id = (true, [])
process_in (k ∷ ks) id =
    if k.cmd_id == id then execute_offline_command (some k) else process_in ks id

-- `offline_process_command`: no command, or its `cmd_id`.
unfoldable pub offline_process_command : Option ℕ → Bool × List OfflineAct
unfolding process_in
offline_process_command none = (false, [])
offline_process_command (some id) = process_in keywords id

-- The file's globals and the counters of the task, the calls made so far with the latest last.
pub record Offline : Type 0 where
  pub is_active : Bool
  pub started_ms : ℕ
  pub log_counter : ℕ
  pub explore_counter : ℕ
  pub acts : List OfflineAct

-- What a round reads: the state of the connection manager, the clock, the result of
-- `obstacle_check`, the one of its second call if a line is logged, whether the log file opens, and
-- the lowest bit of `rand`.
pub record OfflineInputs : Type 0 where
  pub conn : ConnState
  pub now : ℕ
  pub obstacle : ObstacleStatus
  pub logged_obstacle : ObstacleStatus
  pub file_opens : Bool
  pub coin : Bool

abbrev pub offline_start : Offline
offline_start = record {
  is_active = false;
  started_ms = 0;
  log_counter = 0;
  explore_counter = 0;
  acts = [];
}

abbrev pub act : OfflineAct → Offline → Offline
act a s = record s { acts = s.acts ++ (a ∷ []) }

abbrev pub is_offline : ConnState → Bool
is_offline offline = true
is_offline _ = false

abbrev pub bit : Bool → ℕ
bit true = 1
bit false = 0

-- Entering the mode.
unfoldable pub activate : ℕ → Offline → Offline
activate now s =
    if s.is_active
    then s
    else act (face_set_expression sleepy) (
        act (led_set_pattern blinking 50 255 165 0)
          (record s { is_active = true; started_ms = now }))

unfoldable pub stop_at_obstacle : Bool → Offline → Offline
stop_at_obstacle emergency s = if emergency then act (send_motor stop) s else s

-- `log_sensor_data`.
unfoldable pub write_log : OfflineInputs → Offline → Offline
write_log i s =
    let o = i.logged_obstacle in
    if i.file_opens
    then act
        (log_sensor_data i.now (bit o.emergency_stop) (bit o.slow_down) o.distance_cm.front
          o.distance_cm.front_left o.distance_cm.front_right)
        s
    else s

unfoldable pub log_periodically : OfflineInputs → Offline → Offline
log_periodically i s =
    let s' = record s { log_counter = add32 s.log_counter 1 } in
    if (s'.log_counter % 20) == 0 then write_log i s' else s'

unfoldable pub explore : Bool → Offline → Offline
explore coin s =
    if ltb 100 (s.explore_counter + 1)
    then act (send_motor (move (if coin then bcp_dir_rotate_left else bcp_dir_rotate_right) 30 500))
        (record s { explore_counter = 0 })
    else act (send_motor (move bcp_dir_forward 20 0))
        (record s { explore_counter = s.explore_counter + 1 })

-- Leaving the mode.
unfoldable pub deactivate : Offline → Offline
deactivate s = act (send_motor stop) (
    act (face_set_expression neutral) (act (led_set_solid 0 0 20) (record s { is_active = false })))

-- A round of `task_offline`.
unfoldable pub offline_round : Offline → OfflineInputs → Offline
offline_round s i =
    let entered = activate i.now s in
    let logged = log_periodically i (stop_at_obstacle i.obstacle.emergency_stop entered) in
    if is_offline i.conn
    then if i.obstacle.emergency_stop then logged else explore i.coin logged
    else if s.is_active
    then deactivate s
    else s

unfoldable pub run_offline : Offline → List OfflineInputs → Offline
run_offline s [] = s
run_offline s (i ∷ is) = run_offline (offline_round s i) is
