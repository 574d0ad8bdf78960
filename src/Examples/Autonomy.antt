-- ===== src/Examples/Autonomy.antt =====
-- The offline mode on concrete inputs.
use companion_robot.Base.{true, false, some}
use companion_robot.Base.Text.{codes}
use companion_robot.Conn.Manager.{offline}
use companion_robot.Motion.Obstacle.{TofReading, ObstacleStatus, obstacle_init, obstacle_check}
use companion_robot.Behavior.Offline.{keywords, match_keyword, OfflineInputs}
use companion_robot.Behavior.Keywords.{Finds, match_keyword-Finds}

match_keyword-Finds_example :
    Finds (codes "Please COME here") keywords (match_keyword (codes "Please COME here"))
match_keyword-Finds_example = match_keyword-Finds (codes "Please COME here")

abbrev no_obstacle : ObstacleStatus
no_obstacle = record {
  distance_cm = record { front = 90; front_left = 80; front_right = 80; rear = 80 };
  emergency_stop = false;
  slow_down = false;
  timestamp_ms = 5;
}

abbrev free_round : OfflineInputs
free_round = record {
  conn = offline;
  now = 50;
  obstacle = no_obstacle;
  logged_obstacle = no_obstacle;
  file_opens = true;
  coin = true;
}

abbrev far : TofReading
far = record { mm0 = 900; mm1 = 900; mm2 = 900 }

abbrev seen_far : OfflineInputs
seen_far = record free_round {
  obstacle = (obstacle_check (obstacle_check obstacle_init (some far) 1).0 (some far) 2).1;
}
