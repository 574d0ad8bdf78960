-- ===== src/Perception/Microphone.antt =====
-- The microphone: firmware/components/perception/microphone.c. Samples are `int16_t`. The queue
-- holds what main.c gives it room for, four items of four bytes: of a chunk only the pointer to its
-- samples, here the number of the DMA buffer.
use companion_robot.Base.{
  ℕ, zero, suc, ◌+◌, ◌*◌, ◌/◌, ◌%◌, Bool, true, false, not, ◌&&◌, ◌||◌, Option, none, some, List,
  [], ◌∷◌, ◌++◌, length, replicate, take, drop, ltb, ◌≡◌, arith, ◌==◌, if◌then◌else◌,
}
use companion_robot.Base.Float.{FloatOps}
use companion_robot.Base.Int.{ℤ, pos, negsuc}

abbrev pub vad_samples_per_frame : ℕ
vad_samples_per_frame = 16000 * 20 / 1000

abbrev pub dma_buf_count : ℕ
dma_buf_count = 2

abbrev pub q_audio_frame_depth : ℕ
q_audio_frame_depth = 4

-- The file's globals and the queue.
pub record Mic (F : Type 0) : Type 0 where
  pub i2s_ok : Bool
  pub noise_floor : F
  pub speech_active : Bool
  pub speech_start_ms : ℕ
  pub dma_buf : ℕ → List ℤ
  pub active_buf : ℕ
  pub queue : List ℕ

-- What a round reads: the samples, or nothing on an error, the time and the tick count.
pub record MicInputs : Type 0 where
  pub samples : Option (List ℤ)
  pub now_ms : ℕ
  pub ticks : ℕ

-- What the calls of the set-up answer, the allocations for each buffer.
pub record MicSetup : Type 0 where
  pub channel_ok : Bool
  pub std_mode_ok : Bool
  pub psram : ℕ → Bool
  pub dram : ℕ → Bool
  pub enable_ok : Bool

-- The DMA transfer into a buffer.
abbrev pub filled : ℕ → List ℤ → (ℕ → List ℤ) → ℕ → List ℤ
filled b xs dma = λ j. if j == b then xs ++ drop (length xs) (dma b) else dma j

module _ {F : Type 0} (fl : FloatOps F) where
  unfoldable float_of : ℤ → F
  float_of (pos n) = fl.of_int n
  float_of (negsuc n) = fl.negate (fl.of_int (n + 1))

  unfoldable pub sum_squares : F → List ℤ → F
  unfolding float_of
  sum_squares sum [] = sum
  sum_squares sum (x ∷ xs) = sum_squares (fl.plus sum (fl.times (float_of x) (float_of x))) xs

  unfoldable pub compute_rms : List ℤ → F
  unfolding sum_squares
  compute_rms xs = fl.sqrtf (fl.over (sum_squares (fl.literal 0 1) xs) (fl.of_int (length xs)))

  -- Whether a frame has speech, and the noise floor.
  unfoldable pub vad_detect : List ℤ → (speech_active : Bool) → (noise_floor : F) → Bool × F
  vad_detect xs speech_active noise_floor =
      let rms = compute_rms xs in
      let quiet = not speech_active && fl.less rms (fl.times noise_floor (fl.literal 12 10)) in
      let floor =
        if quiet
        then fl.plus (fl.times noise_floor (fl.literal 95 100)) (fl.times rms (fl.literal 5 100))
        else noise_floor in
      (fl.less (fl.times floor (fl.literal 3 1)) rms, floor)

  -- The loop over the frames of a chunk, up to the first with speech.
  unfoldable pub vad_loop :
      (frames : ℕ) → List ℤ → (speech_active : Bool) → (noise_floor : F) → Bool × F
  vad_loop zero xs speech_active noise_floor = (false, noise_floor)
  vad_loop (suc n) xs speech_active noise_floor =
      let (speech, floor) = vad_detect (take vad_samples_per_frame xs) speech_active noise_floor in
      let rest = vad_loop n (drop vad_samples_per_frame xs) speech_active floor in
      if speech then (true, floor) else rest

  -- "Speech state machine".
  unfoldable pub track_speech : (has_speech : Bool) → (now_ms : ℕ) → Mic F → Mic F
  track_speech has_speech now_ms m =
      if has_speech && not m.speech_active
      then record m { speech_active = true; speech_start_ms = now_ms }
      else if not has_speech && m.speech_active
      then record m { speech_active = false }
      else m

  -- "Queue audio chunk for uplink if speech active or periodic".
  unfoldable pub queue_chunk : (ticks : ℕ) → Mic F → Mic F
  queue_chunk ticks m =
      let sent = record m {
        queue = m.queue ++ (m.active_buf ∷ []);
        active_buf = (m.active_buf + 1) % dma_buf_count;
      } in
      if m.speech_active || ((ticks % 50) == 0)
      then if ltb (length m.queue) q_audio_frame_depth then sent else m
      else m

  -- A round that has read samples.
  unfoldable pub hear : List ℤ → MicInputs → Mic F → Mic F
  hear xs i m =
      let (speech, floor) =
        vad_loop (length xs / vad_samples_per_frame) xs m.speech_active m.noise_floor in
      let read : Mic F = record m {
        dma_buf = filled m.active_buf xs m.dma_buf;
        noise_floor = floor;
      } in
      queue_chunk i.ticks (track_speech speech i.now_ms read)

  unfoldable pub on_samples : Option (List ℤ) → MicInputs → Mic F → Mic F
  on_samples none i m = m
  on_samples (some []) i m = m
  on_samples (some (x ∷ xs)) i m = if m.i2s_ok then hear (x ∷ xs) i m else m

  -- "Allocate DMA buffers in PSRAM", `n` of them from `b` on: whether all are there.
  unfoldable pub allocate : MicSetup → (n b : ℕ) → Mic F → Bool × Mic F
  allocate a zero b m = (true, m)
  allocate a (suc n) b m =
      let zeros = replicate (16000 * 100 / 1000) (pos 0) in
      let cleared : Mic F = record m { dma_buf = λ j. if j == b then zeros else m.dma_buf j } in
      let rest = allocate a n (b + 1) cleared in if a.psram b || a.dram b then rest else (false, m)

  unfoldable pub microphone_init : MicSetup → Mic F → Mic F
  unfolding allocate
  microphone_init a m =
      let (allocated, buffers) = allocate a dma_buf_count 0 m in
      let started : Mic F = record buffers {
        i2s_ok = a.enable_ok;
        noise_floor = fl.literal 100 1;
        speech_active = false;
        active_buf = 0;
      } in
      if not (a.channel_ok && a.std_mode_ok)
      then record m { i2s_ok = false }
      else if allocated
      then started
      else record buffers { i2s_ok = false }

  -- The microphone is used exactly if all calls of its set-up succeed, with each of the two buffers
  -- in PSRAM or else in DRAM.
  microphone_init-i2s_ok :
      (a : MicSetup) (m : Mic F)
      → (microphone_init a m).i2s_ok
        ≡ (a.channel_ok && a.std_mode_ok)
          && (((a.psram 0 || a.dram 0) && (a.psram 1 || a.dram 1)) && a.enable_ok)
  unfolding microphone_init allocate
  microphone_init-i2s_ok a m = ground arith

  -- A round of `task_audio_in`.
  unfoldable pub mic_round : MicInputs → Mic F → Mic F
  mic_round i m = on_samples i.samples i m

-- What a reader of the queue finds behind its pointers.
unfoldable pub pending : (ℕ → List ℤ) → List ℕ → List (List ℤ)
pending dma [] = []
pending dma (b ∷ bs) = dma b ∷ pending dma bs
