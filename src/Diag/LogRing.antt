-- ===== src/Diag/LogRing.antt =====
-- The ring of pending log entries: firmware/components/diagnostic/log_upload.c. A string is the
-- list of its characters before the final 0.
use companion_robot.Base.{
  ℕ, zero, suc, ◌+◌, ◌-◌, ◌%◌, ◌/◌, true, false, Option, none, some, ltb, ◌==◌, if◌then◌else◌, List,
  [], ◌∷◌, ◌++◌, length,
}
use companion_robot.Base.Bytes.{Memory, store_bytes}
use companion_robot.Bcp.Types.{Command, Frame}
use companion_robot.Bcp.Payload.{write_u32}
use companion_robot.Bcp.Frame.{bcp_frame_init, bcp_frame_push}

abbrev pub log_ring_size : ℕ
log_ring_size = 64

abbrev pub log_msg_max_len : ℕ
log_msg_max_len = 128

abbrev pub log_level_error : ℕ
log_level_error = 1

abbrev pub bcp_cmd_log_event : ℕ
bcp_cmd_log_event = 0x0504

-- `log_entry_t`.
pub record LogEntry : Type 0 where
  pub level : ℕ
  pub timestamp_ms : ℕ
  pub tag : List ℕ
  pub message : List ℕ

-- The file's globals.
pub record LogRing : Type 0 where
  pub slots : ℕ → LogEntry
  pub head : ℕ
  pub tail : ℕ
  pub count : ℕ

-- The first characters of a string, as `strncpy` and `memcpy` copy them.
unfoldable pub first_chars : ℕ → List ℕ → List ℕ
first_chars n [] = []
first_chars zero (c ∷ cs) = []
first_chars (suc n) (c ∷ cs) = c ∷ first_chars n cs

abbrev pub empty_entry : LogEntry
empty_entry = record { level = 0; timestamp_ms = 0; tag = []; message = [] }

unfoldable pub log_upload_init : LogRing
log_upload_init = record { slots = λ _. empty_entry; head = 0; tail = 0; count = 0 }

abbrev pub put_slot : ℕ → LogEntry → (ℕ → LogEntry) → ℕ → LogEntry
put_slot a e slots = λ j. if j == a then e else slots j

-- "Store in ring buffer".
unfoldable pub store_entry : LogEntry → LogRing → LogRing
store_entry e r =
    let is_free = ltb r.count log_ring_size in
    record {
      slots = put_slot r.head e r.slots;
      head = (r.head + 1) % log_ring_size;
      tail = if is_free then r.tail else (r.tail + 1) % log_ring_size;
      count = if is_free then r.count + 1 else r.count;
    }

unfoldable pub first_or : List ℕ → ℕ → ℕ
first_or [] d = d
first_or (c ∷ cs) d = c

-- The command that reports an error at once; `junk` is what the uninitialised payload holds.
unfoldable pub error_command : Memory → LogEntry → Command
error_command junk e = record {
  cmd_id = bcp_cmd_log_event;
  payload_len = 2;
  payload = store_bytes 0 (e.level % 256 ∷ first_or e.tag 63 ∷ []) junk;
}

-- `log_event` with the formatted message: the ring after it, and the frame it queues.
unfoldable pub log_event :
    Memory → (level now : ℕ) (tag message : List ℕ) → LogRing → LogRing × Option Frame
log_event junk level now tag message r =
    let e : LogEntry = record {
      level = level;
      timestamp_ms = now;
      tag = first_chars 15 tag;
      message = first_chars (log_msg_max_len - 1) message;
    } in
    (
      store_entry e r,
      if level == log_level_error
          then some (bcp_frame_push (bcp_frame_init 0) (error_command junk e)).0
          else none,
    )

-- `log_pop_pending`: `none` where it returns false.
unfoldable pub log_pop_pending : LogRing → Option (LogEntry × LogRing)
log_pop_pending r =
    if r.count == 0
    then none
    else some
        (r.slots r.tail, record r { tail = (r.tail + 1) % log_ring_size; count = r.count - 1 })

-- The most characters of a message that fit behind the tag.
abbrev pub max_msg : ℕ → ℕ
max_msg tag_len = 255 - 6 - tag_len

-- The command for one entry of an upload; `junk` is what its uninitialised payload holds.
unfoldable pub upload_command : Memory → LogEntry → Command
upload_command junk e =
    let tag = first_chars 15 e.tag in
    let message = first_chars (max_msg (length tag)) e.message in
    let bytes = (e.level % 256 ∷ write_u32 e.timestamp_ms) ++ ((length tag ∷ tag) ++ message) in
    record {
      cmd_id = bcp_cmd_log_event;
      payload_len = length bytes % 256;
      payload = store_bytes 0 bytes junk;
    }

-- The loop of `log_upload_response` from `count` on, on fuel: the ring and the frame after it, and
-- the count.
unfoldable pub upload_loop : ℕ → (ℕ → Memory) → LogRing → Frame → ℕ → LogRing × (Frame × ℕ)
upload_loop zero junk r f count = (r, (f, count))
upload_loop (suc n) junk r f count = elim (log_pop_pending r) [
  | none ↦ (r, (f, count))
  | some (e, r') ↦ elim (ltb count 32) [
    | true ↦ upload_loop n junk r' (bcp_frame_push f (upload_command (junk count) e)).0 (count + 1)
    | false ↦ (r', (f, count))
  ]
]

-- `log_upload_response`: at most 32 entries are pushed, and a pop ends the loop, so 33 rounds do.
unfoldable pub log_upload_response : (ℕ → Memory) → LogRing → Frame → LogRing × (Frame × ℕ)
log_upload_response junk r f = upload_loop 33 junk r f 0

-- What `diag_response` reads of the system.
pub record DiagInputs : Type 0 where
  pub free_heap : ℕ
  pub free_psram : ℕ
  pub task_count : ℕ

unfoldable pub diag_bytes : ℕ → DiagInputs → LogRing → List ℕ
diag_bytes t i r =
    if t == 1
    then t ∷ write_u32 i.free_heap
      ++ (i.free_psram % 256 ∷ i.free_psram / 256 % 256 ∷ i.free_psram / 65536 % 256 ∷ [])
    else if t == 2
    then t ∷ i.task_count % 256 ∷ i.task_count / 256 % 256 ∷ log_ring_size ∷ r.count % 256 ∷ []
    else if t == 3
    then t ∷ 0 ∷ []
    else if t == 4
    then t ∷ []
    else t ∷ 255 ∷ []

unfoldable pub diag_response : Memory → ℕ → DiagInputs → LogRing → Frame → Frame
diag_response junk t i r f =
    (bcp_frame_push f (record {
      cmd_id = 0x0503;
      payload_len = length (diag_bytes t i r);
      payload = store_bytes 0 (diag_bytes t i r) junk;
    })).0
