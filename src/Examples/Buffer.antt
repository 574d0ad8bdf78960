-- ===== src/Examples/Buffer.antt =====
-- The log buffer on a concrete input.
use companion_robot.Base.{◌≤◌, ◌%◌, ◌≡◌, some, [], ◌∷◌, arith}
use companion_robot.Base.Bytes.{zeroed}
use companion_robot.Diag.LogRing.{first_chars}
use companion_robot.Storage.LogBuf.{LogBuf, entry_size, decode_entry, append_pos, log_buf_append}
use companion_robot.Storage.Entries.{append_reads_back}

abbrev a_buffer : LogBuf
a_buffer = record { buf = zeroed; buf_size = 64; write_pos = 60; entry_count = 3 }

fits : entry_size (104 ∷ []) (105 ∷ 106 ∷ []) ≤ a_buffer.buf_size
unfolding entry_size first_chars
fits = omega arith

append_reads_back_example :
    let b' = log_buf_append 2 1234 (104 ∷ []) (105 ∷ 106 ∷ []) a_buffer in
    (decode_entry b'.buf b'.buf_size (append_pos a_buffer (104 ∷ []) (105 ∷ 106 ∷ []))
      ≡ some (
        record {
          level = 2 % 256;
          timestamp_ms = 1234;
          tag = first_chars 15 (104 ∷ []);
          message = first_chars 127 (105 ∷ 106 ∷ []);
        },
        b'.write_pos,
      ))
    × (b'.write_pos ≤ b'.buf_size)
append_reads_back_example =
    append_reads_back 2 1234 (104 ∷ []) (105 ∷ 106 ∷ []) a_buffer (omega arith) fits
