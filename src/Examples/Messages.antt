-- ===== src/Examples/Messages.antt =====
-- Deltas and message helpers on concrete inputs.
use companion_robot.Base.{ℕ, ◌+◌, ◌≡◌, List, [], ◌∷◌}
use companion_robot.Base.Bytes.{Memory, zeroed}
use companion_robot.Bcp.Types.{Command}
use companion_robot.Bcp.Helpers.{
  Beat, heartbeat_full, heartbeat_no_change, Delta, heartbeat_differ_init,
}
use companion_robot.Bcp.Layout.{Field, u8, u16}
use companion_robot.Bcp.Deltas.{follow, last_beat, deltas_follow}

abbrev beat : ℕ → Beat
beat battery = record { status = 1; battery = battery; rssi = 200; task_id = 515 }

abbrev no_delta : Delta
no_delta = record { delta_type = heartbeat_no_change; values = beat 0 }

abbrev empty_command : Command
empty_command = record { cmd_id = 0; payload_len = 0; payload = zeroed }

deltas_follow_example :
    follow heartbeat_differ_init no_delta (beat 3) (beat 80 ∷ beat 80 ∷ beat 79 ∷ [])
    ≡ last_beat (beat 80) (beat 80 ∷ beat 79 ∷ [])
deltas_follow_example = deltas_follow no_delta (beat 3) (beat 80) (beat 80 ∷ beat 79 ∷ [])

abbrev full_delta : Delta
full_delta = record { delta_type = heartbeat_full; values = beat 80 }

-- Each byte is its offset and seven.
abbrev ascending : Memory
ascending a = a + 7

abbrev audio_fields : List Field
audio_fields = u8 ∷ u16 ∷ []
