-- ===== src/Perception/OneFrame.antt =====
-- How many frames the camera gives.
use companion_robot.Base.{
  length-append, ℕ, ◌≤◌, ◌≡◌, refl, Bool, Option, none, some, List, [], ◌∷◌, length, arith,
}
use companion_robot.Perception.Camera.{
  Camera, q_vision_frame_depth, camera_init, queue_frame, vision_round, run_vision,
}

-- The driver's answers to a run, for `fb_count` buffers: it gives none while all are outstanding.
abbrev pub HasBuffers : (fb_count : ℕ) → List (Option ℕ) → Camera → Type 0
HasBuffers fb_count [] c = Unit
HasBuffers fb_count (fb ∷ fbs) c =
    (fb_count ≤ c.outstanding → fb ≡ none) × HasBuffers fb_count fbs (vision_round fb c)

-- Each counted frame waits in the queue, and its buffer is outstanding.
pub record IsHeld (c : Camera) : Type 0 where
  pub waits : length c.vision_frames ≡ c.frame_count
  pub held : c.outstanding ≡ c.frame_count

round-IsHeld : (fb : Option ℕ) (c : Camera) → IsHeld c → IsHeld (vision_round fb c)
unfolding vision_round queue_frame
round-IsHeld none c h = h
round-IsHeld (some buf) c h =
    let w = h.waits in
    let o = h.held in let l = length-append c.vision_frames (buf ∷ []) in ground (arith, w, o, l)

round_bound :
    (fb_count : ℕ) (fb : Option ℕ) (c : Camera)
    → IsHeld c
    → c.frame_count ≤ fb_count
    → c.frame_count ≤ q_vision_frame_depth
    → (fb_count ≤ c.outstanding → fb ≡ none)
    → ((vision_round fb c).frame_count ≤ fb_count)
      × ((vision_round fb c).frame_count ≤ q_vision_frame_depth)
unfolding vision_round queue_frame
round_bound fb_count none c h b d r = (b, d)
round_bound fb_count (some buf) c h b d r =
    let w = h.waits in let o = h.held in ground (arith, w, o, b, d, r)

run_bound :
    (fb_count : ℕ) (fbs : List (Option ℕ)) (c : Camera)
    → IsHeld c
    → c.frame_count ≤ fb_count
    → c.frame_count ≤ q_vision_frame_depth
    → HasBuffers fb_count fbs c
    → ((run_vision fbs c).frame_count ≤ fb_count)
      × ((run_vision fbs c).frame_count ≤ q_vision_frame_depth)
      × IsHeld (run_vision fbs c)
unfolding run_vision
run_bound fb_count [] c h b d r = (b, d, h)
run_bound fb_count (fb ∷ fbs) c h b d (r, rs) =
    let (b', d') = round_bound fb_count fb c h b d r in
    run_bound fb_count fbs (vision_round fb c) (round-IsHeld fb c h) b' d' rs

-- However long the camera task runs, it captures and queues at most as many frames as the driver
-- has buffers, and at most two, since no task takes a frame out of the queue and gives its buffer
-- back: all frames of the run still wait in the queue at its end. The hypothesis is that the driver
-- gives no buffer while all are outstanding; `camera_init` asks for a single one.
pub frames_run_out :
    (fb_count : ℕ) (fbs : List (Option ℕ)) (init_ok : Bool)
    → HasBuffers fb_count fbs (camera_init init_ok)
    → let c = run_vision fbs (camera_init init_ok) in
      (c.frame_count ≤ fb_count)
      × (c.frame_count ≤ q_vision_frame_depth)
      × (length c.vision_frames ≡ c.frame_count)
unfolding camera_init
frames_run_out fb_count fbs init_ok r =
    let (b, d, h) =
      run_bound fb_count fbs (camera_init init_ok) (record { waits = refl; held = refl })
        (omega arith) (omega arith) r in
    (b, d, h.waits)
