-- ===== src/Examples/Logs.antt =====
-- Queries of the log buffer on concrete inputs.
use companion_robot.Base.{
  ℕ, ◌+◌, ◌-◌, ◌/◌, ◌≤◌, ◌≡◌, some, true, List, [], ◌∷◌, ◌++◌, map, length, take, replicate, All,
  arith,
}
use companion_robot.Base.Bytes.{Memory, zeroed}
use companion_robot.Base.Text.{codes}
use companion_robot.Diag.LogRing.{LogEntry, first_chars, empty_entry}
use companion_robot.Storage.LogBuf.{LogBuf, log_buf_init}
use companion_robot.Storage.Query.{log_buf_query, log_buf_encode_upload, log_buf_encode_recent}
use companion_robot.Storage.History.{Matches, log_buf_query_returns}
use companion_robot.Storage.Scan.{keep}
use companion_robot.Storage.Replay.{LogCall, logged, append_all, total_size, query_after_appends}
use companion_robot.Storage.Overrun.{encodings_bounded}

abbrev none_yet : LogBuf
none_yet = record { buf = zeroed; buf_size = 0; write_pos = 0; entry_count = 0 }

abbrev warning : LogCall
warning = record { level = 2; now = 70; tag = codes "power"; message = codes "low" }

abbrev note : LogCall
note = record { level = 3; now = 80; tag = codes "led"; message = codes "ok" }

abbrev two_calls : List LogCall
two_calls = warning ∷ (note ∷ [])

log_buf_query_returns_example :
    (r : List LogEntry) × (log_buf_query 2 5 none_yet ≡ some r) × (length r ≤ 5) × All (Matches 2) r
log_buf_query_returns_example = log_buf_query_returns 2 5 none_yet

query_after_appends_example :
    log_buf_query 2 4 (append_all two_calls (log_buf_init 64 true none_yet))
    ≡ some (
        take 4 (
          keep 2 (map logged two_calls) ++ replicate ((64 - total_size two_calls) / 8) empty_entry))
unfolding total_size first_chars
query_after_appends_example =
    query_after_appends two_calls 64 2 4 none_yet (omega arith, (omega arith, tt)) (omega arith)
      (omega arith) (omega arith)

encodings_bounded_example :
    ((n : ℕ) × (k : Memory) × (log_buf_encode_upload none_yet zeroed 100 2 ≡ some (n, k))
      × (n ≤ 100 + 69))
    × ((n : ℕ) × (k : Memory) × (log_buf_encode_recent none_yet zeroed 100 ≡ some (n, k))
        × (n ≤ 100 + 1))
encodings_bounded_example = encodings_bounded none_yet zeroed 100 2

abbrev long_call : LogCall
long_call = record { level = 2; now = 70; tag = codes "power"; message = replicate 90 b'x' }

abbrev long_log : LogBuf
long_log = append_all (long_call ∷ []) (log_buf_init 128 true none_yet)

long_query :
    log_buf_query 2 32 long_log
    ≡ some (logged long_call ∷ (empty_entry ∷ (empty_entry ∷ (empty_entry ∷ []))))
unfolding total_size first_chars
long_query =
    query_after_appends (long_call ∷ []) 128 2 32 none_yet (omega arith, tt) (omega arith)
      (omega arith) (omega arith)
