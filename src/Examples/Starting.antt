-- ===== src/Examples/Starting.antt =====
-- The start of the robot and its camera, at concrete inputs.
use companion_robot.Base.{
  ℕ, ◌≡◌, refl, true, Option, none, some, List, [], ◌∷◌, All, ◌≤◌, arith, length, take, drop,
}
use companion_robot.Startup.Boot.{
  BootAct, task_motor_ctrl, no_free_pages, nvs_ok, BootAnswers, checked, app_main,
}
use companion_robot.Startup.Order.{Resource, provided, needs, needs-provided}
use companion_robot.Perception.Camera.{camera_init, run_vision}
use companion_robot.Perception.OneFrame.{frames_run_out}

-- The flash storage comes up after an erasure.
abbrev erased_first : BootAnswers
erased_first = record {
  nvs_first = no_free_pages;
  nvs_second = nvs_ok;
  erase_ok = true;
  i2c_config_ok = true;
  i2c_install_ok = true;
  spi_ok = true;
}

abbrev boot : List BootAct
unfolding app_main
boot = app_main 24 1600 erased_first

-- The motor task is created after 42 calls.
needs-provided_example :
    All (λ (r : Resource). provided r (take 42 boot) ≡ true) (needs task_motor_ctrl)
unfolding app_main checked
needs-provided_example =
    needs-provided 24 1600 erased_first task_motor_ctrl 4096 5 1 (take 42 boot) (drop 43 boot) refl

-- One buffer: the second and the third answer are empty.
abbrev answers : List (Option ℕ)
answers = some 0x3C000000 ∷ none ∷ none ∷ []

frames_run_out_example :
    let c = run_vision answers (camera_init true) in
    (c.frame_count ≤ 1) × (c.frame_count ≤ 2) × (length c.vision_frames ≡ c.frame_count)
unfolding run_vision camera_init
frames_run_out_example = frames_run_out 1 answers true (ground arith, (λ h. refl, (λ h. refl, tt)))
