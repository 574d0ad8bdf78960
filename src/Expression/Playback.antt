-- ===== src/Expression/Playback.antt =====
-- What the loudspeaker plays: firmware/components/expression/speaker.c.
use companion_robot.Base.{
  ℕ, zero, suc, ◌+◌, ◌-◌, ◌≤◌, ◌<◌, ◌≡◌, refl, ap, sym, subst, ◌∙◌, Bool, true, not, ◌||◌, some,
  List, [], ◌∷◌, ◌++◌, length, length-append, take, drop, ltb, leb, ltb_of_le, ◌==◌, if◌then◌else◌,
  arith, Bool-cases, ◌⊎◌, inl, inr,
}
use companion_robot.Expression.Speaker.{
  finished, to_read, audio_format, bits_per_sample, data_size, played, stream_loop, play_data,
  speaker_play_file, Speaker, speaker_enqueue_tts, speak_next, audio_out_round, SpeakerStep,
  enqueue, round, run_speaker,
}

-- What `fread` documents of its result, for a file that is read without error: all that is asked
-- for, or else all that is left.
abbrev pub ReadsAll : (ℕ → List ℕ → ℕ) → Type 0
ReadsAll count =
    (asked : ℕ) (rest : List ℕ)
    → count asked rest ≡ (if leb asked (length rest) then asked else length rest)

abbrev pub joined : List (List ℕ) → List ℕ
joined [] = []
joined (c ∷ cs) = c ++ joined cs

take_nil : {A : Type 0} (n : ℕ) → take {A = A} n [] ≡ []
take_nil zero = refl
take_nil (suc n) = refl

take-take-drop :
    {A : Type 0} (a b : ℕ) (xs : List A) → take a xs ++ take b (drop a xs) ≡ take (a + b) xs
take-take-drop zero b xs = ap (λ (n : ℕ). take n xs) (omega arith)
take-take-drop (suc a) b [] = take_nil b ∙ sym (take_nil (suc a + b))
take-take-drop (suc a) b (x ∷ xs) =
    ap (◌∷◌ x) (take-take-drop a b xs)
    ∙ ap (λ (n : ℕ). take n (x ∷ xs)) {x = suc (a + b)} (omega arith)

take_nothing : (m : ℕ) (rest : List ℕ) → (m ≡ 0) ⊎ (length rest ≡ 0) → [] ≡ take m rest
take_nothing m rest (inl e) = rw e refl
take_nothing m [] (inr e) = sym (take_nil m)
take_nothing m (x ∷ rest) (inr e) = absurd (omega (arith, e))

count_bounds :
    (count : ℕ → List ℕ → ℕ) (asked : ℕ) (rest : List ℕ)
    → ReadsAll count
    → (count asked rest ≤ asked) × ((count asked rest ≡ asked) ⊎ (count asked rest ≡ length rest))
count_bounds count asked rest r = ground (arith, r asked rest)

stream_loop_lem :
    (count : ℕ → List ℕ → ℕ) (fuel total size : ℕ) (rest : List ℕ)
    → ReadsAll count
    → size - total < fuel
    → (chunks : List (List ℕ)) × (stream_loop count fuel total size rest ≡ some chunks)
      × (joined chunks ≡ take (size - total) rest)
unfolding stream_loop
stream_loop_lem count zero total size rest r h = absurd (omega arith)
stream_loop_lem count (suc n) total size rest r h =
    let k = count (to_read total size) rest in
    let (le, all) = count_bounds count (to_read total size) rest r in
    elim (Bool-cases (not (ltb total size) || (k == 0))) [
      | inl stop ↦ ([], rw stop refl, take_nothing (size - total) rest (ground (arith, le, all)))
      | inr on ↦
          let (chunks, e, j) =
            stream_loop_lem count n (total + k) size (drop k rest) r (ground (arith, le)) in
          (
            take k rest ∷ chunks,
            rw (on, e) refl,
            ap (λ (l : List ℕ). take k rest ++ l) j
                ∙ take-take-drop k (size - (total + k)) rest
                ∙ ap (λ (m : ℕ). take m rest) (ground (arith, le)),
          )
    ]

play_data_lem :
    (count : ℕ → List ℕ → ℕ) (fuel : ℕ) (file : List ℕ) (chunks : List (List ℕ))
    → stream_loop count fuel 0 (data_size file) (drop 44 file) ≡ some chunks
    → play_data count true fuel file ≡ some (played chunks)
unfolding play_data
play_data_lem count fuel file chunks e = ap finished e

-- A call for a file of 16-bit PCM with a whole header, over a working channel and with the buffer
-- allocated, ends within one more step than the header has bytes of data, and hands over the data
-- in order: all the bytes that the header announces, or those that the file has. `fread` gives
-- what it documents.
pub plays_data :
    (count : ℕ → List ℕ → ℕ) (fuel : ℕ) (file : List ℕ)
    → ReadsAll count
    → 44 ≤ length file
    → audio_format file ≡ 1
    → bits_per_sample file ≡ 16
    → data_size file < fuel
    → (chunks : List (List ℕ)) × (speaker_play_file count true true fuel (some file)
        ≡ some (played chunks))
      × (joined chunks ≡ take (data_size file) (drop 44 file))
unfolding speaker_play_file
plays_data count fuel file r h f b u =
    let (chunks, e, j) =
      stream_loop_lem count fuel 0 (data_size file) (drop 44 file) r (omega arith) in
    (
      chunks,
      rw (ltb_of_le (length file) 44 h, f, b) (play_data_lem count fuel file chunks e),
      j ∙ ap (λ (n : ℕ). take n (drop 44 file)) (omega arith),
    )

abbrev pub rounds : List SpeakerStep → ℕ
rounds [] = 0
rounds (enqueue malloc_ok samples ∷ steps) = rounds steps
rounds (round ∷ steps) = suc (rounds steps)

-- The buffers in the queue are the ones that are allocated, and the queue's room is kept.
pub record IsBalanced (s : Speaker) : Type 0 where
  pub freed_once : s.allocated ≡ length s.tts_queue
  pub in_room : length s.tts_queue ≤ 8

enqueue-IsBalanced :
    (ok : Bool) (samples : List ℕ) (s : Speaker)
    → IsBalanced s
    → IsBalanced (speaker_enqueue_tts ok samples s)
unfolding speaker_enqueue_tts
enqueue-IsBalanced ok samples s h =
    ground (arith, length-append s.tts_queue (samples ∷ []), h.freed_once, h.in_room)

speak_next-IsBalanced :
    (queue : List (List ℕ)) (s : Speaker)
    → s.tts_queue ≡ queue
    → IsBalanced s
    → IsBalanced (speak_next queue s).0
unfolding speak_next
speak_next-IsBalanced [] s e h = h
speak_next-IsBalanced (samples ∷ queue) s e h =
    let l : length s.tts_queue ≡ suc (length queue) = ap (λ (q : List (List ℕ)). length q) e in
    record { freed_once = omega (arith, h.freed_once, l); in_room = omega (arith, h.in_room, l) }

size : {xs ys : List (List ℕ)} → xs ≡ ys → length xs ≡ length ys
size e = ap (λ (l : List (List ℕ)). length l) e

take_before : (n : ℕ) (xs ys : List (List ℕ)) → n ≤ length xs → take n (xs ++ ys) ≡ take n xs
take_before zero xs ys h = refl
take_before (suc n) [] ys h = absurd (omega arith)
take_before (suc n) (x ∷ xs) ys h = ap (◌∷◌ x) (take_before n xs ys (omega arith))

enqueue_keeps :
    (ok : Bool) (samples : List ℕ) (s : Speaker)
    → ((speaker_enqueue_tts ok samples s).i2s_ok ≡ s.i2s_ok)
      × (((speaker_enqueue_tts ok samples s).tts_queue ≡ s.tts_queue)
          ⊎ ((speaker_enqueue_tts ok samples s).tts_queue ≡ s.tts_queue ++ (samples ∷ [])))
unfolding speaker_enqueue_tts
enqueue_keeps ok samples s = ground arith

-- What a round makes of a queue that is not empty.
round_lem :
    (queue : List (List ℕ)) (s : Speaker)
    → s.i2s_ok ≡ true
    → s.tts_queue ≡ queue
    → 1 ≤ length queue
    → (x : List ℕ) × (q : List (List ℕ)) × (queue ≡ x ∷ q)
      × ((audio_out_round s).1 ≡ x ∷ [])
      × ((audio_out_round s).0.tts_queue ≡ q)
      × ((audio_out_round s).0.i2s_ok ≡ true)
unfolding audio_out_round speak_next
round_lem [] s ok e h = absurd (omega arith)
round_lem (x ∷ q) s ok e h = (x, q, refl, rw (ok, e) refl, rw (ok, e) refl, rw (ok, e) refl)

round_speaks : (s : Speaker) → s.i2s_ok ≡ true → audio_out_round s ≡ speak_next s.tts_queue s
unfolding audio_out_round
round_speaks s ok = ap (λ (b : Bool). if b then speak_next s.tts_queue s else (s, [])) ok

round-IsBalanced : (s : Speaker) → s.i2s_ok ≡ true → IsBalanced s → IsBalanced (audio_out_round s).0
round-IsBalanced s ok h =
    subst (λ (r : Speaker × List (List ℕ)). IsBalanced r.0) (sym (round_speaks s ok))
      (speak_next-IsBalanced s.tts_queue s refl h)

-- Steps in any order, with a working channel, from a state in which the allocated buffers are the
-- at most 8 that wait, and with no more rounds among the steps than such buffers: the rounds write
-- the first of these, one each and in their order, whatever is enqueued in between, and at the end
-- again the allocated buffers are the at most 8 that wait.
pub tts_in_turn :
    (steps : List SpeakerStep) (s : Speaker)
    → s.i2s_ok ≡ true
    → IsBalanced s
    → rounds steps ≤ length s.tts_queue
    → ((run_speaker steps s).1 ≡ take (rounds steps) s.tts_queue)
      × IsBalanced (run_speaker steps s).0
unfolding run_speaker
tts_in_turn [] s ok h u = (refl, h)
tts_in_turn (enqueue malloc_ok samples ∷ steps) s ok h u =
    let s' = speaker_enqueue_tts malloc_ok samples s in
    let (ok', q) = enqueue_keeps malloc_ok samples s in
    let longer = length-append s.tts_queue (samples ∷ []) in
    let room : rounds steps ≤ length s'.tts_queue = elim q [
      | inl e ↦ omega (arith, u, size e)
      | inr e ↦ omega (arith, u, size e, longer)
    ] in
    let (w, b) = tts_in_turn steps s' (ok' ∙ ok) (enqueue-IsBalanced malloc_ok samples s h) room in
    (
      w ∙ elim q [
        | inl e ↦ ap (λ (l : List (List ℕ)). take (rounds steps) l) e
        | inr e ↦
            ap (λ (l : List (List ℕ)). take (rounds steps) l) e
            ∙ take_before (rounds steps) s.tts_queue (samples ∷ []) u
      ],
      b,
    )
tts_in_turn (round ∷ steps) s ok h u =
    let (x, q, e, w, e', ok') = round_lem s.tts_queue s ok refl (omega (arith, u)) in
    let room : rounds steps ≤ length (audio_out_round s).0.tts_queue =
      omega (arith, u, size e, size e') in
    let (w', b) = tts_in_turn steps (audio_out_round s).0 ok' (round-IsBalanced s ok h) room in
    (
      ap (λ (l : List (List ℕ)). l ++ (run_speaker steps (audio_out_round s).0).1) w
          ∙ ap (◌∷◌ x) (w' ∙ ap (λ (l : List (List ℕ)). take (rounds steps) l) e')
          ∙ sym (ap (λ (l : List (List ℕ)). take (suc (rounds steps)) l) e),
      b,
    )
