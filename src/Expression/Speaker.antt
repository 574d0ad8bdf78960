-- ===== src/Expression/Speaker.antt =====
-- The loudspeaker: firmware/components/expression/speaker.c. A file is the list of its bytes, and
-- how many bytes a `fread` gives is a parameter. What is handed to the I2S driver is recorded,
-- without what the driver makes of it.
use companion_robot.Base.{
  ℕ, zero, suc, ◌+◌, ◌-◌, ◌*◌, ◌/◌, Bool, true, false, not, ◌||◌, Option, none, some, List, [], ◌∷◌,
  ◌++◌, length, take, drop, get_or, ltb, ◌==◌, if◌then◌else◌,
}

abbrev pub dma_buf_size : ℕ
dma_buf_size = 22050 * 50 / 1000 * 2

abbrev pub tts_queue_depth : ℕ
tts_queue_depth = 8

abbrev pub wav_header_size : ℕ
wav_header_size = 44

abbrev u16_at : List ℕ → ℕ → ℕ
u16_at file i = get_or file i 0 + get_or file (i + 1) 0 * 256

-- The fields of `wav_header_t` that the code uses, from the bytes of the file.
abbrev pub audio_format : List ℕ → ℕ
audio_format file = u16_at file 20

abbrev pub bits_per_sample : List ℕ → ℕ
bits_per_sample file = u16_at file 34

abbrev pub data_size : List ℕ → ℕ
data_size file = u16_at file 40 + u16_at file 42 * 65536

-- How a call of `speaker_play_file` ends: at one of its tests, or with the chunks written.
pub data Playback : Type 0 where
  disabled file_not_found no_header unsupported no_memory : Playback
  played : (chunks : List (List ℕ)) → Playback

abbrev pub to_read : (total_written data_size : ℕ) → ℕ
to_read total_written data_size =
    let remaining = data_size - total_written in
    if ltb remaining dma_buf_size then remaining else dma_buf_size

abbrev pub with_chunk : List ℕ → Option (List (List ℕ)) → Option (List (List ℕ))
with_chunk c none = none
with_chunk c (some chunks) = some (c ∷ chunks)

abbrev pub finished : Option (List (List ℕ)) → Option Playback
finished none = none
finished (some chunks) = some (played chunks)

-- `fread_count asked rest` is the number of bytes that `fread` of `asked` bytes gives.
module _ (fread_count : ℕ → List ℕ → ℕ) where
  -- "Stream PCM data to I2S in chunks", on fuel.
  unfoldable pub stream_loop :
      (fuel total_written data_size : ℕ) → (rest : List ℕ) → Option (List (List ℕ))
  stream_loop zero total_written data_size rest = none
  stream_loop (suc n) total_written data_size rest =
      let read = fread_count (to_read total_written data_size) rest in
      let later = stream_loop n (total_written + read) data_size (drop read rest) in
      if not (ltb total_written data_size) || (read == 0)
      then some []
      else with_chunk (take read rest) later

  -- The debug line that divides by `block_align` is not modelled: firmware/sdkconfig.defaults sets
  -- the level INFO, which compiles it out.
  unfoldable pub play_data : (allocated : Bool) → (fuel : ℕ) → List ℕ → Option Playback
  play_data false fuel file = some no_memory
  play_data true fuel file =
      finished (stream_loop fuel 0 (data_size file) (drop wav_header_size file))

  -- The result `none` means that the fuel ran out; the file `none` is one that cannot be opened. Log
  -- lines are left out.
  unfoldable pub speaker_play_file :
      (i2s_ok allocated : Bool) → (fuel : ℕ) → (file : Option (List ℕ)) → Option Playback
  speaker_play_file false allocated fuel file = some disabled
  speaker_play_file true allocated fuel none = some file_not_found
  speaker_play_file true allocated fuel (some file) =
      if ltb (length file) wav_header_size
      then some no_header
      else if not (audio_format file == 1) || not (bits_per_sample file == 16)
      then some unsupported
      else play_data allocated fuel file

-- The globals, with the number of the buffers that are allocated and not freed.
pub record Speaker : Type 0 where
  pub i2s_ok : Bool
  pub tts_queue : List (List ℕ)
  pub allocated : ℕ

-- `speaker_enqueue_tts`; the flag is whether `malloc` succeeds.
unfoldable pub speaker_enqueue_tts : (malloc_ok : Bool) → (samples : List ℕ) → Speaker → Speaker
speaker_enqueue_tts malloc_ok samples s =
    if not s.i2s_ok
    then s
    else if not malloc_ok
    then s
    else if ltb (length s.tts_queue) tts_queue_depth
    then record s { tts_queue = s.tts_queue ++ (samples ∷ []); allocated = s.allocated + 1 }
    else record s { allocated = s.allocated + 1 - 1 }

-- The queue's part in a round: what is written.
unfoldable pub speak_next : List (List ℕ) → Speaker → Speaker × List (List ℕ)
speak_next [] s = (s, [])
speak_next (samples ∷ queue) s =
    (record s { tts_queue = queue; allocated = s.allocated - 1 }, samples ∷ [])

-- A round of `task_audio_out`.
unfoldable pub audio_out_round : Speaker → Speaker × List (List ℕ)
audio_out_round s = if s.i2s_ok then speak_next s.tts_queue s else (s, [])

-- Calls from other tasks and rounds of the task, in their order.
pub data SpeakerStep : Type 0 where
  enqueue : (malloc_ok : Bool) (samples : List ℕ) → SpeakerStep
  round : SpeakerStep

unfoldable pub run_speaker : List SpeakerStep → Speaker → Speaker × List (List ℕ)
run_speaker [] s = (s, [])
run_speaker (enqueue malloc_ok samples ∷ steps) s =
    run_speaker steps (speaker_enqueue_tts malloc_ok samples s)
run_speaker (round ∷ steps) s =
    let (s', written) = audio_out_round s in
    let (end, later) = run_speaker steps s' in (end, written ++ later)
