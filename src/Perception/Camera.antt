-- ===== src/Perception/Camera.antt =====
-- The camera: firmware/components/perception/camera.c. The driver's frame buffers are an input.
-- The queue holds what main.c gives it room for, two items of four bytes: of a frame only the
-- pointer to its data.
use companion_robot.Base.{
  ℕ, ◌+◌, Bool, Option, none, some, List, [], ◌∷◌, ◌++◌, length, ltb, if◌then◌else◌,
}

abbrev pub q_vision_frame_depth : ℕ
q_vision_frame_depth = 2

-- The globals, the queue, and of the driver the number of buffers that were got and not returned.
pub record Camera : Type 0 where
  pub camera_ok : Bool
  pub vision_frames : List ℕ
  pub frame_count : ℕ
  pub outstanding : ℕ

-- `camera_init`, with the driver's answer, and the start of the task.
unfoldable pub camera_init : (init_ok : Bool) → Camera
camera_init init_ok = record {
  camera_ok = init_ok;
  vision_frames = [];
  frame_count = 0;
  outstanding = 0;
}

-- A captured frame, by the address of its data. With a full queue its buffer goes back to the
-- driver and it is not counted, so `frame_count` counts the frames that were queued.
unfoldable pub queue_frame : (buf : ℕ) → Camera → Camera
queue_frame buf c =
    if ltb (length c.vision_frames) q_vision_frame_depth
    then record c {
      vision_frames = c.vision_frames ++ (buf ∷ []);
      frame_count = c.frame_count + 1;
      outstanding = c.outstanding + 1;
    }
    else c

-- A round of `task_vision`: `fb` is what `esp_camera_fb_get` gives.
unfoldable pub vision_round : (fb : Option ℕ) → Camera → Camera
vision_round none c = c
vision_round (some buf) c = if c.camera_ok then queue_frame buf c else c

unfoldable pub run_vision : List (Option ℕ) → Camera → Camera
run_vision [] c = c
run_vision (fb ∷ fbs) c = run_vision fbs (vision_round fb c)
