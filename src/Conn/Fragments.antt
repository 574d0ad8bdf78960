-- ===== src/Conn/Fragments.antt =====
-- What the links would send: firmware/components/comm/ws_client.c and ble_gatt.c.
use companion_robot.Base.{
  ℕ, zero, suc, ◌+◌, ◌-◌, ◌%◌, ◌≤◌, ◌<◌, ◌≡◌, inl, inr, refl, ap, subst, ◌∙◌, true, false, Option,
  none, some, List, [], ◌∷◌, ◌++◌, All, ltb, leb, ltb_of_lt, ltb_of_le, lt_or_le, if◌then◌else◌,
  arith,
}
use companion_robot.Base.Bytes.{Memory}
use companion_robot.Base.Int.{pos}
use companion_robot.Bcp.Types.{Frame}
use companion_robot.Bcp.Frame.{bcp_encode, bcp_frame_wire_len}
use companion_robot.Bcp.Bounds.{bcp_encode_result}
use companion_robot.Conn.Links.{
  WsClient, ws_send_raw, ws_send_frame, BleGatt, frag_loop, chunk_of, ble_send_frame,
}

abbrev total : List ℕ → ℕ
total [] = 0
total (n ∷ ns) = n + total ns

-- Lengths that add up to `whole`, each between 1 and `most`.
record Split (most whole : ℕ) (ns : List ℕ) : Type 0 where
  together : total ns ≡ whole
  sized : All (λ (n : ℕ). (1 ≤ n) × (n ≤ most)) ns

leb_of_le : (a b : ℕ) → a ≤ b → leb a b ≡ true
leb_of_le a b h = ground arith

leb_of_lt : (a b : ℕ) → b < a → leb a b ≡ false
leb_of_lt a b h = ground arith

chunk_lem :
    (mtu left : ℕ)
    → 1 ≤ mtu
    → 1 ≤ left
    → (1 ≤ chunk_of mtu left) × (chunk_of mtu left ≤ mtu) × (chunk_of mtu left ≤ left)
unfolding chunk_of
chunk_lem mtu left h k = ground arith

frag_step :
    (n len mtu offset : ℕ) (l : List ℕ)
    → offset < len
    → frag_loop n len mtu (offset + chunk_of mtu (len - offset)) ≡ some l
    → frag_loop (suc n) len mtu offset ≡ some (chunk_of mtu (len - offset) ∷ l)
unfolding frag_loop
frag_step n len mtu offset l h e = rw (ltb_of_lt offset len h, e) refl

frag_done : (n len mtu offset : ℕ) → len ≤ offset → frag_loop (suc n) len mtu offset ≡ some []
unfolding frag_loop
frag_done n len mtu offset h = rw (ltb_of_le offset len h) refl

frag_loop_lem :
    (fuel len mtu offset : ℕ)
    → 1 ≤ mtu
    → offset ≤ len
    → len < offset + fuel
    → (l : List ℕ) × (frag_loop fuel len mtu offset ≡ some l) × Split mtu (len - offset) l
frag_loop_lem zero len mtu offset h o f = absurd (omega arith)
frag_loop_lem (suc n) len mtu offset h o f = elim (lt_or_le offset len) [
  | inl more ↦
      let chunk = chunk_of mtu (len - offset) in
      let (low, high, fits) = chunk_lem mtu (len - offset) h (omega arith) in
      let (l, e, s) =
        frag_loop_lem n len mtu (offset + chunk) h (omega (arith, fits)) (omega (arith, low)) in
      (
        chunk ∷ l,
        frag_step n len mtu offset l more e,
        record { together = omega (arith, s.together, fits); sized = ((low, high), s.sized) },
      )
  | inr done ↦
      ([], frag_done n len mtu offset done, record { together = omega (arith, done); sized = tt })
]

mtu_lem : (mtu : ℕ) → 4 ≤ mtu → mtu < 65536 → (mtu + 65536 - 3) % 65536 ≡ mtu - 3
mtu_lem mtu h k = omega arith

encodes :
    (f : Frame) (junk : Memory)
    → bcp_frame_wire_len f ≤ 1024
    → ((bcp_encode f junk 1024).0 ≡ bcp_frame_wire_len f) × (10 ≤ bcp_frame_wire_len f)
encodes f junk h = elim (bcp_encode_result f junk 1024) [
  | inl (big, _, _) ↦ absurd (omega (arith, big, h))
  | inr (inl (_, short, _, _)) ↦ absurd (omega (arith, short, h))
  | inr (inr (_, _, e, ten)) ↦ (e, omega (arith, e, ten))
]

-- The two ways to send, by the length of the frame and the space in a notification.
single_lem :
    (fuel : ℕ) (junk : Memory) (f : Frame) (g : BleGatt)
    → g.connected ≡ true
    → let len = (bcp_encode f junk 1024).0 in
      len ≤ (g.mtu + 65536 - 3) % 65536
      → ble_send_frame fuel junk f g ≡ some (pos 0, record g { logged = g.logged ++ (len ∷ []) })
unfolding ble_send_frame
single_lem fuel junk f g c h =
    let len = (bcp_encode f junk 1024).0 in
    simp (c, ltb_of_le len 0 (omega arith), leb_of_le len ((g.mtu + 65536 - 3) % 65536) h) refl

-- The buffer that the fragments are sent from.
abbrev copied : ℕ → Memory → BleGatt → Memory
copied len buf g = λ j. if ltb j len then buf j else g.tx_frag_buf j

fragmented_lem :
    (fuel : ℕ) (junk : Memory) (f : Frame) (g : BleGatt) (r : Option (List ℕ))
    → g.connected ≡ true
    → let (len, buf) = bcp_encode f junk 1024 in
      (g.mtu + 65536 - 3) % 65536 < len
      → frag_loop fuel len ((g.mtu + 65536 - 3) % 65536) 0 ≡ r
      → ble_send_frame fuel junk f g ≡ (elim r [
        | none ↦ none
        | some l ↦ some (
          pos 0,
          record g {
            tx_frag_len = len;
            tx_frag_offset = len;
            tx_frag_buf = copied len buf g;
            logged = g.logged ++ l;
          },
        )
      ])
unfolding ble_send_frame
fragmented_lem fuel junk f g r c h e =
    let len = (bcp_encode f junk 1024).0 in
    simp (c, ltb_of_le len 0 (omega arith), leb_of_lt len ((g.mtu + 65536 - 3) % 65536) h, e) refl

-- A frame that fits into 1024 bytes, over a connected Bluetooth link, where the MTU is at least 4 and
-- fits its C type, with more fuel than the frame has bytes. The call returns 0, and the lengths
-- that it logs add up to the frame's; each is between 1 and the MTU without its 3 bytes of header.
ble_logs_whole_frame :
    (fuel : ℕ) (junk : Memory) (f : Frame) (g : BleGatt)
    → g.connected ≡ true
    → bcp_frame_wire_len f ≤ 1024
    → 4 ≤ g.mtu
    → g.mtu < 65536
    → bcp_frame_wire_len f < fuel
    → (g' : BleGatt) × (l : List ℕ) × (ble_send_frame fuel junk f g ≡ some (pos 0, g'))
      × (g'.logged ≡ g.logged ++ l)
      × Split (g.mtu - 3) (bcp_frame_wire_len f) l
ble_logs_whole_frame fuel junk f g c small low high enough =
    let (e, ten) = encodes f junk small in
    let len = (bcp_encode f junk 1024).0 in
    let m = mtu_lem g.mtu low high in
    elim (lt_or_le (g.mtu - 3) (bcp_frame_wire_len f)) [
      | inl more ↦
          let (l, q, s) =
            frag_loop_lem fuel len ((g.mtu + 65536 - 3) % 65536) 0 (omega (arith, m)) (omega arith)
              (omega (arith, e)) in
          (
            _,
            l,
            fragmented_lem fuel junk f g (some l) c (omega (arith, e, m)) q,
            refl,
            record {
              together = omega (arith, s.together, e);
              sized = subst (λ (n : ℕ). All (λ (b : ℕ). (1 ≤ b) × (b ≤ n)) l) m s.sized;
            },
          )
      | inr one ↦ (
        _,
        len ∷ [],
        single_lem fuel junk f g c (omega (arith, e, m)),
        refl,
        record {
          together = omega (arith, e);
          sized = ((omega (arith, e, ten), omega (arith, e, one)), tt);
        },
      )
    ]

frag_stays :
    (n len offset : ℕ)
    → offset < len
    → frag_loop n len 0 offset ≡ none
    → frag_loop (suc n) len 0 offset ≡ none
unfolding frag_loop chunk_of
frag_stays n len offset h e =
    let stays : offset + chunk_of 0 (len - offset) ≡ offset = ground arith in
    let rest = ap (frag_loop n len 0) stays ∙ e in rw (ltb_of_lt offset len h, rest) refl

frag_stuck : (fuel len offset : ℕ) → offset < len → frag_loop fuel len 0 offset ≡ none
frag_stuck zero len offset h = unfold frag_loop in refl
frag_stuck (suc n) len offset h = frag_stays n len offset h (frag_stuck n len offset h)

encode_positive : (f : Frame) (junk : Memory) → 1 ≤ (bcp_encode f junk 1024).0
encode_positive f junk = elim (bcp_encode_result f junk 1024) [
  | inl (_, e, _) ↦ omega (arith, e)
  | inr (inl (_, _, e, _)) ↦ omega (arith, e)
  | inr (inr (_, _, _, ten)) ↦ omega (arith, ten)
]

-- With an MTU of 3 the fragments are empty and the loop never ends: no fuel is enough, for any
-- frame.
mtu_three_hangs :
    (fuel : ℕ) (junk : Memory) (f : Frame) (g : BleGatt)
    → g.connected ≡ true
    → g.mtu ≡ 3
    → ble_send_frame fuel junk f g ≡ none
mtu_three_hangs fuel junk f g c m =
    let none_left : (g.mtu + 65536 - 3) % 65536 ≡ 0 = omega (arith, m) in
    let len = (bcp_encode f junk 1024).0 in
    let positive = encode_positive f junk in
    fragmented_lem fuel junk f g none c (omega (arith, none_left, positive))
      (ap (λ (n : ℕ). frag_loop fuel len n 0) none_left ∙ frag_stuck fuel len 0 positive)

too_large :
    (f : Frame) (junk : Memory) → 1024 < bcp_frame_wire_len f → (bcp_encode f junk 1024).0 ≡ 9
too_large f junk h = elim (bcp_encode_result f junk 1024) [
  | inl (_, e, _) ↦ e
  | inr (inl (small, _, _, _)) ↦ absurd (omega (arith, small, h))
  | inr (inr (small, _, _, _)) ↦ absurd (omega (arith, small, h))
]

-- A frame of more than 1024 bytes counts as sent over a connected WebSocket: the call returns 9,
-- the code of the error, and logs it as the length of the message.
oversized_counts_as_sent :
    (junk : Memory) (f : Frame) (c : WsClient)
    → c.connected ≡ true
    → 1024 < bcp_frame_wire_len f
    → ws_send_frame junk f c ≡ (pos 9, record c { logged = c.logged ++ (9 ∷ []) })
unfolding ws_send_frame ws_send_raw
oversized_counts_as_sent junk f c h big = simp (h, too_large f junk big) refl
