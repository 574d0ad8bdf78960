-- ===== src/Diag/Upload.antt =====
-- Runs of the ring, and what an upload takes from it: firmware/components/diagnostic/log_upload.c.
use companion_robot.Base.{
  ℕ, zero, suc, ◌+◌, ◌-◌, ◌<◌, ◌≡◌, Option, none, some, List, [], ◌∷◌, ◌++◌, length, length-append,
  refl, sym, ap, arith, ◌∙◌, ltb_of_lt, ltb_of_le,
}
use mathlib.Core.List.{append_assoc, append-nil}
use companion_robot.Base.Bytes.{Memory}
use companion_robot.Bcp.Types.{Command, Frame}
use companion_robot.Bcp.Frame.{bcp_frame_push}
use companion_robot.Diag.LogRing.{
  LogEntry, LogRing, log_upload_init, log_pop_pending, log_event, first_chars, log_msg_max_len,
  upload_command, upload_loop, log_upload_response, store_entry,
}
use companion_robot.Diag.RingView.{
  entries, IsRing, view, enqueue, nothing, popped, IsPop-cases, store_entry-IsRing,
  store_entry-view, log_upload_init-IsRing,
}

-- A call of the ring's interface.
pub data LogCall : Type 0 where
  logs : Memory → (level now : ℕ) (tag message : List ℕ) → LogCall
  pops : LogCall

-- The entry that `log_event` builds.
abbrev pub entry_of : (level now : ℕ) (tag message : List ℕ) → LogEntry
entry_of level now tag message = record {
  level = level;
  timestamp_ms = now;
  tag = first_chars 15 tag;
  message = first_chars (log_msg_max_len - 1) message;
}

-- Calls in turn: the ring after them, and what the pops return.
unfoldable pub run_ring : List LogCall → LogRing → LogRing × List (Option LogEntry)
run_ring [] r = (r, [])
run_ring (logs junk level now tag message ∷ cs) r =
    run_ring cs (log_event junk level now tag message r).0
run_ring (pops ∷ cs) r = elim (log_pop_pending r) [
  | none ↦ let out = run_ring cs r in (out.0, none ∷ out.1)
  | some (e, r') ↦ let out = run_ring cs r' in (out.0, some e ∷ out.1)
]

-- The same calls on the queue.
unfoldable pub run_queue : List LogCall → List LogEntry → List LogEntry × List (Option LogEntry)
run_queue [] q = (q, [])
run_queue (logs junk level now tag message ∷ cs) q =
    run_queue cs (enqueue (entry_of level now tag message) q)
run_queue (pops ∷ cs) [] = let out = run_queue cs [] in (out.0, none ∷ out.1)
run_queue (pops ∷ cs) (e ∷ es) = let out = run_queue cs es in (out.0, some e ∷ out.1)

abbrev viewed : LogRing × List (Option LogEntry) → List LogEntry × List (Option LogEntry)
viewed out = (view out.0, out.1)

run_ring-view :
    (cs : List LogCall) (r : LogRing) → IsRing r → viewed (run_ring cs r) ≡ run_queue cs (view r)
unfolding run_ring run_queue log_event
run_ring-view [] r h = refl
run_ring-view (logs junk level now tag message ∷ cs) r h =
    let e = entry_of level now tag message in
    run_ring-view cs (store_entry e r) (store_entry-IsRing e r h)
    ∙ ap (run_queue cs) (store_entry-view e r h)
run_ring-view (pops ∷ cs) r h = elim (IsPop-cases r h) [
  | nothing p v ↦
      rw (p, v, run_ring) (ap (λ o. (o.0, none ∷ o.1)) (run_ring-view cs r h ∙ ap (run_queue cs) v))
  | popped r' p k v ↦
      rw (p, v, run_ring) (ap (λ o. (o.0, some (r.slots r.tail) ∷ o.1)) (run_ring-view cs r' k))
]

-- From its initialisation, any sequence of logged events, errors among them, and pops behaves as
-- the queue of at most 64 entries that drops its oldest, whatever the levels: the pops return the same entries, and the pending entries are
-- the queue, its oldest first.
pub ring_is_queue :
    (cs : List LogCall)
    → let out = run_ring cs log_upload_init in
      (out.1 ≡ (run_queue cs []).1) × (view out.0 ≡ (run_queue cs []).0)
unfolding log_upload_init entries
ring_is_queue cs =
    let e = run_ring-view cs log_upload_init log_upload_init-IsRing in
    (ap (λ o. o.1) e, ap (λ o. o.0) e)

-- The first `n` entries, and the others.
unfoldable pub take_entries : ℕ → List LogEntry → List LogEntry
take_entries zero es = []
take_entries (suc n) [] = []
take_entries (suc n) (e ∷ es) = e ∷ take_entries n es

unfoldable pub drop_entries : ℕ → List LogEntry → List LogEntry
drop_entries zero es = es
drop_entries (suc n) [] = []
drop_entries (suc n) (e ∷ es) = drop_entries n es

-- The commands for entries, from the `count`-th on.
unfoldable pub commands_of : (ℕ → Memory) → ℕ → List LogEntry → List Command
commands_of junk count [] = []
commands_of junk count (e ∷ es) = upload_command (junk count) e ∷ commands_of junk (count + 1) es

record IsUpload (junk : ℕ → Memory) (k count : ℕ) (es : List LogEntry) (old : List Command)
    (out : LogRing × (Frame × ℕ)) : Type 0 where
  left : view out.0 ≡ drop_entries (suc k) es
  sent : out.1.0.commands ≡ old ++ commands_of junk count (take_entries k es)
  counted : out.1.1 ≡ count + length (take_entries k es)

push_commands :
    (f : Frame) (c : Command)
    → length f.commands < 32
    → (bcp_frame_push f c).0.commands ≡ f.commands ++ (c ∷ [])
unfolding bcp_frame_push
push_commands f c h = ground arith

IsUpload-nothing :
    (junk : ℕ → Memory) (k count : ℕ) (r : LogRing) (f : Frame)
    → view r ≡ []
    → IsUpload junk k count [] f.commands (r, (f, count))
unfolding take_entries drop_entries commands_of
IsUpload-nothing junk zero count r f v = record {
  left = v;
  sent = sym (append-nil f.commands);
  counted = omega arith;
}
IsUpload-nothing junk (suc n) count r f v = record {
  left = v;
  sent = sym (append-nil f.commands);
  counted = omega arith;
}

IsUpload-more :
    (junk : ℕ → Memory) (n count : ℕ) (es : List LogEntry) (f : Frame) (e : LogEntry)
    → (out : LogRing × (Frame × ℕ)) → length f.commands < 32
    → IsUpload junk n
        (count + 1)
        es
        (bcp_frame_push f (upload_command (junk count) e)).0.commands
        out
    → IsUpload junk (suc n) count (e ∷ es) f.commands out
unfolding take_entries drop_entries commands_of
IsUpload-more junk n count es f e out l u =
    let c = upload_command (junk count) e in
    let rest = commands_of junk (count + 1) (take_entries n es) in
    record {
      left = u.left;
      sent =
          u.sent
          ∙ ap (λ cs. cs ++ rest) (push_commands f c l)
          ∙ append_assoc f.commands (c ∷ []) rest;
      counted = omega (arith, u.counted);
    }

upload_loop-IsUpload :
    (junk : ℕ → Memory) (k count : ℕ) (r : LogRing) (f : Frame)
    → IsRing r
    → count + k ≡ 32
    → length f.commands ≡ count
    → IsUpload junk k count (view r) f.commands (upload_loop (suc k) junk r f count)
unfolding upload_loop take_entries drop_entries commands_of
upload_loop-IsUpload junk zero count r f h s l = elim (IsPop-cases r h) [
  | nothing p v ↦ rw (p, v, upload_loop) (IsUpload-nothing junk zero count r f v)
  | popped r' p k v ↦
      rw (p, v, upload_loop)
        (rw (ltb_of_le count 32 (omega (arith, s)))
          (record { left = refl; sent = sym (append-nil f.commands); counted = omega arith }))
]
upload_loop-IsUpload junk (suc n) count r f h s l = elim (IsPop-cases r h) [
  | nothing p v ↦ rw (p, v, upload_loop) (IsUpload-nothing junk (suc n) count r f v)
  | popped r' p k v ↦
      rw (p, v, upload_loop)
        (rw (ltb_of_lt count 32 (omega (arith, s))) (
          IsUpload-more junk n count (view r') f (r.slots r.tail)
            (upload_loop (suc n) junk r'
              (bcp_frame_push f (upload_command (junk count) (r.slots r.tail))).0 (count + 1))
            (omega (arith, s, l))
            (upload_loop-IsUpload junk n (count + 1) r'
              (bcp_frame_push f (upload_command (junk count) (r.slots r.tail))).0 k
              (omega (arith, s))
              (ap length (
                  push_commands f (upload_command (junk count) (r.slots r.tail))
                    (omega (arith, s, l)))
                ∙ omega (
                  arith,
                  l,
                  length-append f.commands (upload_command (junk count) (r.slots r.tail) ∷ []),
                )))))
]

-- An upload into an empty frame sends the 32 oldest pending entries, in order, one command each, or
-- all of them if there are fewer, and returns how many. It takes 33 from the ring: the loop pops
-- before it looks at the count, so the 33rd oldest entry is neither sent nor kept.
upload_loses_entry :
    (junk : ℕ → Memory) (r : LogRing) (f : Frame)
    → IsRing r
    → f.commands ≡ []
    → let out = log_upload_response junk r f in
      (out.1.0.commands ≡ commands_of junk 0 (take_entries 32 (view r)))
      × (out.1.1 ≡ length (take_entries 32 (view r)))
      × (view out.0 ≡ drop_entries 33 (view r))
unfolding log_upload_response
upload_loses_entry junk r f h e =
    let u = upload_loop-IsUpload junk 32 0 r f h (omega arith) (ap length e) in
    (
      u.sent ∙ ap (λ cs. cs ++ commands_of junk 0 (take_entries 32 (view r))) e,
      omega (arith, u.counted),
      u.left,
    )
