-- ===== src/Perception/AudioBuffers.antt =====
-- The two buffers behind the queue of the microphone:
-- firmware/components/perception/microphone.c.
use companion_robot.Base.{
  ℕ, ◌+◌, ◌%◌, ◌≤◌, ◌<◌, ◌≡◌, refl, ap, sym, subst, ◌/◌, ◌∙◌, Bool, true, some, Option, List, [],
  ◌∷◌, ◌++◌, length, length-append, drop_all, ◌==◌, if◌then◌else◌, arith,
}
use mathlib.Core.List.{append-nil, append_assoc}
use companion_robot.Base.Float.{FloatOps}
use companion_robot.Base.Int.{ℤ}
use companion_robot.Perception.Microphone.{
  Mic, MicInputs, filled, vad_loop, track_speech, queue_chunk, hear, on_samples, mic_round, pending,
  vad_samples_per_frame,
}

-- The microphone works, and a chunk of `n` samples fills either buffer.
pub record IsReady {F : Type 0} (n : ℕ) (m : Mic F) : Type 0 where
  pub works : m.i2s_ok ≡ true
  pub alternates : m.active_buf < 2
  pub short : (j : ℕ) → length (m.dma_buf j) ≤ n

-- What a round does that reads `c` and sends it.
record Sends {F : Type 0} (c : List ℤ) (m r : Mic F) : Type 0 where
  works : r.i2s_ok ≡ m.i2s_ok
  queued : r.queue ≡ m.queue ++ (m.active_buf ∷ [])
  switched : r.active_buf ≡ (m.active_buf + 1) % 2
  read_in : (j : ℕ) → r.dma_buf j ≡ (if j == m.active_buf then c else m.dma_buf j)

track_speech_lem :
    {F : Type 0} (fl : FloatOps F) (b : Bool) (now : ℕ) (m : Mic F)
    → ((track_speech fl b now m).i2s_ok ≡ m.i2s_ok)
      × ((track_speech fl b now m).queue ≡ m.queue)
      × ((track_speech fl b now m).active_buf ≡ m.active_buf)
      × ((track_speech fl b now m).dma_buf ≡ m.dma_buf)
unfolding track_speech
track_speech_lem fl b now m = ground arith

queue_chunk_lem :
    {F : Type 0} (fl : FloatOps F) (ticks : ℕ) (m : Mic F)
    → ticks % 50 ≡ 0
    → length m.queue < 4
    → ((queue_chunk fl ticks m).i2s_ok ≡ m.i2s_ok)
      × ((queue_chunk fl ticks m).queue ≡ m.queue ++ (m.active_buf ∷ []))
      × ((queue_chunk fl ticks m).active_buf ≡ (m.active_buf + 1) % 2)
      × ((queue_chunk fl ticks m).dma_buf ≡ m.dma_buf)
unfolding queue_chunk
queue_chunk_lem fl ticks m h k = ground arith

filled_full :
    (b j : ℕ) (c : List ℤ) (dma : ℕ → List ℤ)
    → length (dma b) ≤ length c
    → filled b c dma j ≡ (if j == b then c else dma j)
filled_full b j c dma h = rw (drop_all (length c) (dma b) h, append-nil c) refl

hear-Sends :
    {F : Type 0} (fl : FloatOps F) (c : List ℤ) (i : MicInputs) (m : Mic F)
    → i.ticks % 50 ≡ 0
    → length m.queue < 4
    → length (m.dma_buf m.active_buf) ≤ length c
    → Sends c m (hear fl c i m)
unfolding hear
hear-Sends fl c i m t q s =
    let v = vad_loop fl (length c / vad_samples_per_frame) c m.speech_active m.noise_floor in
    let read = record m { dma_buf = filled m.active_buf c m.dma_buf; noise_floor = v.1 } in
    let k = track_speech_lem fl v.0 i.now_ms read in
    let l =
      queue_chunk_lem fl i.ticks (track_speech fl v.0 i.now_ms read) t
        (omega (arith, ap (λ (x : List ℕ). length x) k.1)) in
    record {
      works = l.0 ∙ k.0;
      queued = l.1 ∙ cc (k.1, k.2);
      switched = l.2 ∙ ap (λ (n : ℕ). (n + 1) % 2) k.2;
      read_in =
          λ j. ap (λ (d : ℕ → List ℤ). d j) (l.3 ∙ k.3) ∙ filled_full m.active_buf j c m.dma_buf s;
    }

reads :
    {F : Type 0} (fl : FloatOps F) (x : ℤ) (xs : List ℤ) (i : MicInputs) (m : Mic F)
    → i.samples ≡ some (x ∷ xs)
    → m.i2s_ok ≡ true
    → mic_round fl i m ≡ hear fl (x ∷ xs) i m
unfolding mic_round on_samples
reads fl x xs i m e w =
    ap (λ (s : Option (List ℤ)). on_samples fl s i m) e
    ∙ ap (λ (b : Bool). if b then hear fl (x ∷ xs) i m else m) w

round-Sends :
    {F : Type 0} (fl : FloatOps F) (n : ℕ) (x : ℤ) (xs : List ℤ) (i : MicInputs) (m : Mic F)
    → i.samples ≡ some (x ∷ xs)
    → length xs + 1 ≡ n
    → i.ticks % 50 ≡ 0
    → length m.queue < 4
    → IsReady n m
    → Sends (x ∷ xs) m (mic_round fl i m)
round-Sends fl n x xs i m e l t q r =
    subst (Sends (x ∷ xs) m) (sym (reads fl x xs i m e r.works))
      (hear-Sends fl (x ∷ xs) i m t q (omega (arith, r.short m.active_buf, l)))

Sends-IsReady :
    {F : Type 0} (n : ℕ) (c : List ℤ) (m r : Mic F)
    → length c ≡ n
    → Sends c m r
    → IsReady n m
    → IsReady n r
Sends-IsReady n c m r e s h = record {
  works = s.works ∙ h.works;
  alternates = omega (arith, s.switched);
  short = λ j. ground (arith, s.read_in j, h.short j, e);
}

three_behind :
    (q q1 q2 q3 : List ℕ) (a b : ℕ)
    → q1 ≡ q ++ (a ∷ [])
    → q2 ≡ q1 ++ (b ∷ [])
    → q3 ≡ q2 ++ (a ∷ [])
    → q3 ≡ q ++ (a ∷ (b ∷ (a ∷ [])))
three_behind q q1 q2 q3 a b e e' e'' =
    e''
    ∙ ap (λ (l : List ℕ). l ++ (a ∷ [])) (e' ∙ ap (λ (l : List ℕ). l ++ (b ∷ [])) e)
    ∙ simp append_assoc refl

-- Three rounds that read a full chunk and send it, with at most one item in the queue before, as on
-- every fiftieth tick. The queue then holds the first buffer twice, around the other: the third
-- chunk has overwritten the first, which a reader that has not come in between never sees.
third_chunk_overwrites :
    {F : Type 0} (fl : FloatOps F) (n : ℕ) (x1 x2 x3 : ℤ) (c1 c2 c3 : List ℤ) (i1 i2 i3 : MicInputs)
    (m : Mic F)
    → i1.samples ≡ some (x1 ∷ c1)
    → i2.samples ≡ some (x2 ∷ c2)
    → i3.samples ≡ some (x3 ∷ c3)
    → (length c1 + 1 ≡ n) × (length c2 + 1 ≡ n) × (length c3 + 1 ≡ n)
    → (i1.ticks % 50 ≡ 0) × (i2.ticks % 50 ≡ 0) × (i3.ticks % 50 ≡ 0)
    → length m.queue ≤ 1
    → IsReady n m
    → let r = mic_round fl i3 (mic_round fl i2 (mic_round fl i1 m)) in
      let a = m.active_buf in
      let b = (a + 1) % 2 in
      (r.queue ≡ m.queue ++ (a ∷ (b ∷ (a ∷ []))))
      × (pending r.dma_buf (a ∷ (b ∷ (a ∷ []))) ≡ (x3 ∷ c3) ∷ ((x2 ∷ c2) ∷ ((x3 ∷ c3) ∷ [])))
unfolding pending
third_chunk_overwrites fl n x1 x2 x3 c1 c2 c3 i1 i2 i3 m e1 e2 e3 len t q h =
    let m1 = mic_round fl i1 m in
    let m2 = mic_round fl i2 m1 in
    let m3 = mic_round fl i3 m2 in
    let longer = λ (l : List ℕ) (a : ℕ). length-append l (a ∷ []) in
    let s1 = round-Sends fl n x1 c1 i1 m e1 len.0 t.0 (omega arith) h in
    let h1 = Sends-IsReady n (x1 ∷ c1) m m1 (omega (arith, len.0)) s1 h in
    let q1 : length m1.queue ≡ length m.queue + 1 =
      ap (λ (l : List ℕ). length l) s1.queued ∙ longer m.queue m.active_buf in
    let s2 = round-Sends fl n x2 c2 i2 m1 e2 len.1 t.1 (omega (arith, q1)) h1 in
    let h2 = Sends-IsReady n (x2 ∷ c2) m1 m2 (omega (arith, len.1)) s2 h1 in
    let q2 : length m2.queue ≡ length m1.queue + 1 =
      ap (λ (l : List ℕ). length l) s2.queued ∙ longer m1.queue m1.active_buf in
    let s3 = round-Sends fl n x3 c3 i3 m2 e3 len.2 t.2 (omega (arith, q1, q2)) h2 in
    let a = m.active_buf in
    let b = (a + 1) % 2 in
    let back : m2.active_buf ≡ a = omega (arith, s1.switched, s2.switched, h.alternates) in
    let last : m3.dma_buf a ≡ x3 ∷ c3 = ground (arith, s3.read_in a, back) in
    let middle : m3.dma_buf b ≡ x2 ∷ c2 =
      ground (arith, s3.read_in b, s2.read_in b, s1.switched, back, h.alternates) in
    (
      three_behind m.queue m1.queue m2.queue m3.queue a b s1.queued
          (s2.queued ∙ ap (λ (k : ℕ). m1.queue ++ (k ∷ [])) s1.switched)
          (s3.queued ∙ ap (λ (k : ℕ). m2.queue ++ (k ∷ [])) back),
      cc (last, middle),
    )
