-- ===== src/Examples/Codec.antt =====
-- Frames through the codec, and the diagnostic log, on concrete inputs.
use companion_robot.Base.{◌<◌, ◌≤◌, ◌≡◌, refl, List, [], ◌∷◌, arith, ◌⊎◌}
use companion_robot.Base.Bytes.{zeroed}
use companion_robot.Bcp.Types.{Command, Frame}
use companion_robot.Bcp.Ids.{kind_of}
use companion_robot.Bcp.Payload.{payload_len_of, payload_bytes, cmd_payload_len, encode_cmd_payload}
use companion_robot.Bcp.Frame.{wire_len_loop, bcp_frame_wire_len, bcp_encode}
use companion_robot.Bcp.Members.{EnumsFit}
use companion_robot.Bcp.Wire.{IsSendable}
use companion_robot.Bcp.Encoded.{IsSendableFrame}
use companion_robot.Bcp.Bounds.{bcp_encode_result, bcp_encode-no_overrun}
use companion_robot.Diag.LogRing.{LogEntry, LogRing, log_upload_init}
use companion_robot.Diag.RingView.{IsRing, view}
use companion_robot.Diag.Upload.{LogCall, logs, pops, run_ring, run_queue, ring_is_queue}

abbrev a_move : Command
a_move = record { cmd_id = 0x0101; payload_len = 3; payload = zeroed }

abbrev a_stop : Command
a_stop = record { cmd_id = 0x0103; payload_len = 0; payload = zeroed }

abbrev two_commands : Frame
two_commands = record { version = 1; seq_no = 300; reserved = 0; commands = a_move ∷ a_stop ∷ [] }

abbrev old_frame : Frame
old_frame = record { version = 0; seq_no = 0; reserved = 0; commands = [] }

move-IsSendable : IsSendable a_move
unfolding cmd_payload_len payload_len_of encode_cmd_payload payload_bytes kind_of EnumsFit
move-IsSendable = record {
  id_u16 = omega arith;
  len_u8 = omega arith;
  bytes = λ j. omega arith;
  enums = omega arith;
  fills = refl;
}

stop-IsSendable : IsSendable a_stop
unfolding cmd_payload_len payload_len_of encode_cmd_payload payload_bytes kind_of EnumsFit
stop-IsSendable = record {
  id_u16 = omega arith;
  len_u8 = omega arith;
  bytes = λ j. omega arith;
  enums = tt;
  fills = refl;
}

two_commands-IsSendable : IsSendableFrame two_commands
two_commands-IsSendable = record {
  version_one = refl;
  seq_u16 = omega arith;
  reserved_u8 = omega arith;
  few = omega arith;
  sendable = (move-IsSendable, (stop-IsSendable, tt));
}

wire_len : bcp_frame_wire_len two_commands ≡ 19
unfolding bcp_frame_wire_len wire_len_loop cmd_payload_len payload_len_of kind_of
wire_len = refl

bcp_encode_result_example :
    let r = bcp_encode two_commands zeroed 64 in
    let total = bcp_frame_wire_len two_commands in
    ((1024 < total) × (r.0 ≡ 9) × (r.1 ≡ zeroed))
    ⊎ ((total ≤ 1024) × (64 < total) × (r.0 ≡ 8) × (r.1 ≡ zeroed))
    ⊎ ((total ≤ 1024) × (total ≤ 64) × (r.0 ≡ total) × (10 ≤ r.0))
bcp_encode_result_example = bcp_encode_result two_commands zeroed 64

bcp_encode-no_overrun_example : (bcp_encode two_commands zeroed 64).1 30 ≡ 0
bcp_encode-no_overrun_example =
    bcp_encode-no_overrun two_commands zeroed 64 30 two_commands-IsSendable.sendable
      (omega (arith, wire_len))

abbrev calls : List LogCall
calls = logs zeroed 2 5 (104 ∷ []) (105 ∷ []) ∷ pops ∷ pops ∷ []

ring_is_queue_example :
    let out = run_ring calls log_upload_init in
    (out.1 ≡ (run_queue calls []).1) × (view out.0 ≡ (run_queue calls []).0)
ring_is_queue_example = ring_is_queue calls

abbrev an_entry : LogEntry
an_entry = record { level = 2; timestamp_ms = 9; tag = []; message = [] }

abbrev two_over : LogRing
two_over = record { slots = λ j. an_entry; head = 34; tail = 0; count = 34 }

two_over-IsRing : IsRing two_over
two_over-IsRing = record { tail_in = omega arith; count_in = omega arith; head_at = refl }
