-- ===== src/Bcp/Deltas.antt =====
-- What the differ's deltas and the message helpers come to:
-- firmware/components/bcp/bcp_codec.c.
use companion_robot.Base.{
  ℕ, ◌+◌, ◌*◌, ◌%◌, ◌/◌, ◌≡◌, refl, ap, ◌∙◌, true, false, List, [], ◌∷◌, ◌++◌, arith, Bool-cases,
  inl, inr,
}
use companion_robot.Base.Bytes.{store, store_bytes}
use companion_robot.Bcp.Types.{Command, write_u16}
use companion_robot.Bcp.Ids.{kind_of}
use companion_robot.Bcp.Payload.{
  write_u32, cmd_payload_len, payload_len_of, encode_cmd_payload, payload_bytes,
}
use companion_robot.Bcp.Helpers.{
  Beat, heartbeat_full, heartbeat_no_change, heartbeat_battery_only, Delta, Differ,
  heartbeat_differ_init, delta_type_of, fill_delta, heartbeat_differ_diff, delta_bytes, delta_len,
  bcp_encode_heartbeat_delta, bcp_encode_heartbeat, bcp_encode_imu, bcp_encode_obstacle,
  bcp_encode_env,
}

-- A receiver of deltas, as their types mean them.
unfoldable pub apply_delta : Beat → Delta → Beat
apply_delta p d = elim d.delta_type [
  | heartbeat_full ↦ d.values
  | heartbeat_no_change ↦ p
  | heartbeat_battery_only ↦ record p { battery = d.values.battery }
]

-- Beats in turn through the differ, its output filled again and again, and the receiver.
unfoldable pub follow : Differ → Delta → Beat → List Beat → Beat
follow d out p [] = p
follow d out p (b ∷ bs) =
    let r = heartbeat_differ_diff d out b in follow r.0 r.1 (apply_delta p r.1) bs

unfoldable pub last_beat : Beat → List Beat → Beat
last_beat p [] = p
last_beat p (b ∷ bs) = last_beat b bs

-- A receiver whose beat is the differ's last one, if there is one.
record Follows (d : Differ) (p : Beat) : Type 0 where
  same : d.has_last ≡ true → p ≡ d.last

later_delta :
    (d : Differ) (out : Delta) (b : Beat)
    → d.has_last ≡ true
    → apply_delta d.last (heartbeat_differ_diff d out b).1 ≡ b
unfolding apply_delta heartbeat_differ_diff fill_delta delta_type_of
later_delta d out b h = ground arith

first_delta :
    (d : Differ) (out : Delta) (b p : Beat)
    → d.has_last ≡ false
    → apply_delta p (heartbeat_differ_diff d out b).1 ≡ b
unfolding apply_delta heartbeat_differ_diff fill_delta delta_type_of
first_delta d out b p h = ground arith

one_delta :
    (d : Differ) (out : Delta) (b p : Beat)
    → Follows d p
    → apply_delta p (heartbeat_differ_diff d out b).1 ≡ b
one_delta d out b p f = elim (Bool-cases d.has_last) [
  | inl h ↦
      ap (λ q. apply_delta q (heartbeat_differ_diff d out b).1) (f.same h) ∙ later_delta d out b h
  | inr h ↦ first_delta d out b p h
]

diff-Follows :
    (d : Differ) (out : Delta) (b p : Beat) → p ≡ b → Follows (heartbeat_differ_diff d out b).0 p
unfolding heartbeat_differ_diff
diff-Follows d out b p e = record { same = λ h. e }

follow-Follows :
    (bs : List Beat) (d : Differ) (out : Delta) (p : Beat)
    → Follows d p
    → follow d out p bs ≡ last_beat p bs
unfolding follow last_beat
follow-Follows [] d out p f = refl
follow-Follows (b ∷ bs) d out p f =
    let r = heartbeat_differ_diff d out b in
    let e = one_delta d out b p f in
    follow-Follows bs r.0 r.1 (apply_delta p r.1) (diff-Follows d out b (apply_delta p r.1) e)
    ∙ ap (λ q. last_beat q bs) e

init-Follows : (p : Beat) → Follows heartbeat_differ_init p
unfolding heartbeat_differ_init
init-Follows p = record { same = λ h. cc }

-- From a fresh differ, whatever its output held and the receiver believed, a receiver that applies
-- every delta in turn holds exactly the last beat.
pub deltas_follow :
    (out : Delta) (p b : Beat) (bs : List Beat)
    → follow heartbeat_differ_init out p (b ∷ bs) ≡ last_beat b bs
unfolding heartbeat_differ_init last_beat
deltas_follow out p b bs = follow-Follows (b ∷ bs) heartbeat_differ_init out p (init-Follows p)

word16 : (v : ℕ) → write_u16 (v % 256 + v / 256 % 256 * 256) ≡ write_u16 v
word16 v = ground arith

word32 :
    (v : ℕ)
    → write_u32
        (v % 256 + v / 256 % 256 * 256 + v / 65536 % 256 * 65536 + v / 16777216 % 256 * 16777216)
      ≡ write_u32 v
word32 v = ground arith

both : {xs ys us vs : List ℕ} → xs ≡ ys → us ≡ vs → xs ++ us ≡ ys ++ vs
both e f = cc

-- Through `bcp_encode_heartbeat_delta`, the codec puts a full delta on the wire without its signal
-- strength: the payload is announced and written with 5 bytes, not the 6 of the delta, a zero byte,
-- status, battery and task; two deltas that differ only in the strength give the same bytes.
delta_loses_rssi :
    (cmd : Command) (b : Beat)
    → let c = bcp_encode_heartbeat_delta cmd (record { delta_type = heartbeat_full; values = b }) in
      (cmd_payload_len c ≡ 5)
      × (c.payload_len ≡ 6)
      × (encode_cmd_payload c
          ≡ 0 ∷ b.status ∷ b.battery ∷ b.task_id % 256 ∷ b.task_id / 256 % 256 ∷ [])
unfolding bcp_encode_heartbeat_delta delta_bytes delta_len cmd_payload_len payload_len_of
    encode_cmd_payload payload_bytes kind_of store_bytes store
delta_loses_rssi cmd b = (refl, refl, ap (λ t. 0 ∷ b.status ∷ b.battery ∷ t) (word16 b.task_id))

-- For each message helper, the length that it sets is the length that the codec computes, and the
-- codec writes the helper's arguments in order, each in little-endian order.
helpers_encode :
    (cmd : Command) (b : Beat) (ax ay az gx gy gz : ℕ) (direction distance : ℕ)
    → (temp humi pressure light air : ℕ)
    → let h = bcp_encode_heartbeat cmd b in
      let i = bcp_encode_imu cmd ax ay az gx gy gz in
      let o = bcp_encode_obstacle cmd direction distance in
      let e = bcp_encode_env cmd temp humi pressure light air in
      (encode_cmd_payload h ≡ b.status % 256 ∷ b.battery % 256 ∷ b.rssi % 256 ∷ write_u16 b.task_id)
      × (encode_cmd_payload i
          ≡ write_u16 ax
            ++ (write_u16 ay ++ (write_u16 az ++ (write_u16 gx ++ (write_u16 gy ++ write_u16 gz)))))
      × (encode_cmd_payload o ≡ direction % 256 ∷ write_u16 distance)
      × (encode_cmd_payload e
          ≡ write_u16 temp
            ++ (write_u16 humi ++ (write_u32 pressure ++ (write_u32 light ++ write_u16 air))))
      × (cmd_payload_len h ≡ h.payload_len)
      × (cmd_payload_len i ≡ i.payload_len)
      × (cmd_payload_len o ≡ o.payload_len)
      × (cmd_payload_len e ≡ e.payload_len)
unfolding bcp_encode_heartbeat bcp_encode_imu bcp_encode_obstacle bcp_encode_env cmd_payload_len
    payload_len_of encode_cmd_payload payload_bytes kind_of store
helpers_encode cmd b ax ay az gx gy gz direction distance temp humi pressure light air = (
  ap (λ t. b.status % 256 ∷ b.battery % 256 ∷ b.rssi % 256 ∷ t) (word16 b.task_id),
  both (word16 ax)
      (both (word16 ay) (both (word16 az) (both (word16 gx) (both (word16 gy) (word16 gz))))),
  ap (λ t. direction % 256 ∷ t) (word16 distance),
  both (word16 temp)
      (both (word16 humi) (both (word32 pressure) (both (word32 light) (word16 air)))),
  refl,
  refl,
  refl,
  refl,
)
