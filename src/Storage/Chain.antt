-- ===== src/Storage/Chain.antt =====
-- The entries that stand in the log buffer one behind the other:
-- firmware/components/storage/log_buf.c.
use companion_robot.Base.{
  ℕ, ◌+◌, ◌%◌, ◌≤◌, ◌<◌, ◌≡◌, ap, sym, subst, ◌∙◌, List, [], ◌∷◌, ◌++◌, length, arith,
}
use companion_robot.Base.Bytes.{Memory, store_bytes_below, store_bytes_above, load_bytes_agree}
use companion_robot.Bcp.Types.{write_u16}
use companion_robot.Bcp.Payload.{write_u32, read_u32}
use companion_robot.Diag.LogRing.{LogEntry}
use companion_robot.Storage.Entries.{HoldsEntry, written}

-- The bytes of an entry.
abbrev pub entry_len : LogEntry → ℕ
entry_len e = 8 + length e.tag + length e.message

pub record Fits (e : LogEntry) : Type 0 where
  pub tag_fits : length e.tag ≤ 15
  pub msg_fits : length e.message ≤ 127

abbrev pub Holds : Memory → ℕ → LogEntry → Type 0
Holds m pos e = HoldsEntry m pos e.level e.timestamp_ms e.tag e.message

-- The entries stand from `pos` to `end`.
abbrev pub Chain : Memory → ℕ → List LogEntry → ℕ → Type 0
Chain m pos [] end = pos ≡ end
Chain m pos (e ∷ es) end =
    Holds m pos e × Fits e × (e.level < 256) × Chain m (pos + entry_len e) es end

pub written_before :
    (m : Memory) (pos level now : ℕ) (t s : List ℕ) (j : ℕ)
    → j < pos
    → written m pos level now t s j ≡ m j
written_before m pos level now t s j h =
    store_bytes_below s (pos + 8 + length t) j _ (omega arith)
    ∙ store_bytes_below (write_u16 (length s)) (pos + 6 + length t) j _ (omega arith)
    ∙ store_bytes_below t (pos + 6) j _ (omega arith)
    ∙ store_bytes_below (write_u32 now ++ (level % 256 ∷ length t % 256 ∷ [])) pos j _ h

pub written_after :
    (m : Memory) (pos level now : ℕ) (t s : List ℕ) (j : ℕ)
    → pos + (8 + length t + length s) ≤ j
    → written m pos level now t s j ≡ m j
written_after m pos level now t s j h =
    store_bytes_above s (pos + 8 + length t) j _ (omega arith)
    ∙ store_bytes_above (write_u16 (length s)) (pos + 6 + length t) j _ (omega arith)
    ∙ store_bytes_above t (pos + 6) j _ (omega arith)
    ∙ store_bytes_above (write_u32 now ++ (level % 256 ∷ length t % 256 ∷ [])) pos j _ (omega arith)

-- Two memories with the same bytes in a range.
abbrev pub Agree : Memory → Memory → ℕ → ℕ → Type 0
Agree k m lo hi = (j : ℕ) → lo ≤ j → j < hi → k j ≡ m j

read_u32-Agree :
    (k m : Memory) (pos : ℕ) → Agree k m pos (pos + 4) → read_u32 k pos ≡ read_u32 m pos
read_u32-Agree k m pos h = ground (arith, h pos, h (pos + 1), h (pos + 2), h (pos + 3))

pub Holds-Agree :
    (k m : Memory) (pos level now : ℕ) (t s : List ℕ)
    → Agree k m pos (pos + (8 + length t + length s))
    → HoldsEntry m pos level now t s
    → HoldsEntry k pos level now t s
Holds-Agree k m pos level now t s a h =
    let off = pos + 6 + length t in
    record {
      stamped = read_u32-Agree k m pos (λ j p q. a j p (omega (arith, q))) ∙ h.stamped;
      leveled = a (pos + 4) (omega arith) (omega arith) ∙ h.leveled;
      tag_length = a (pos + 5) (omega arith) (omega arith) ∙ h.tag_length;
      tag_there =
          load_bytes_agree (length t) (pos + 6) (pos + 6) k m
            (λ j q. a (pos + 6 + j) (omega arith) (omega (arith, q)))
          ∙ h.tag_there;
      msg_length = omega (
        arith,
        a off (omega arith) (omega arith),
        a (off + 1) (omega arith) (omega arith),
        h.msg_length,
      );
      msg_there =
          load_bytes_agree (length s) (off + 2) (off + 2) k m
            (λ j q. a (off + 2 + j) (omega arith) (omega (arith, q)))
          ∙ h.msg_there;
    }

pub Chain-le : (m : Memory) (es : List LogEntry) (pos end : ℕ) → Chain m pos es end → pos ≤ end
Chain-le m [] pos end c = omega (arith, c)
Chain-le m (e ∷ es) pos end (h, f, l, c) = omega (arith, Chain-le m es (pos + entry_len e) end c)

Chain-Agree :
    (k m : Memory) (es : List LogEntry) (pos end : ℕ)
    → Agree k m 0 end
    → Chain m pos es end
    → Chain k pos es end
Chain-Agree k m [] pos end a c = c
Chain-Agree k m (e ∷ es) pos end a (h, f, l, c) =
    let le = Chain-le m es (pos + entry_len e) end c in
    (
      Holds-Agree k m pos e.level e.timestamp_ms e.tag e.message
          (λ j p q. a j (omega arith) (omega (arith, q, le))) h,
      f,
      l,
      Chain-Agree k m es (pos + entry_len e) end a c,
    )

Chain-snoc :
    (m : Memory) (es : List LogEntry) (e : LogEntry) (pos end : ℕ)
    → Chain m pos es end
    → Holds m end e
    → Fits e
    → e.level < 256
    → Chain m pos (es ++ (e ∷ [])) (end + entry_len e)
Chain-snoc m [] e pos end c h f l =
    let there : Holds m pos e = subst (λ (a : ℕ). Holds m a e) (sym c) h in
    (there, f, l, ap (λ (a : ℕ). a + entry_len e) c)
Chain-snoc m (x ∷ es) e pos end (g, u, v, c) h f l =
    (g, u, v, Chain-snoc m es e (pos + entry_len x) end c h f l)

-- A further entry behind the others.
pub Chain-written :
    (k m : Memory) (es : List LogEntry) (e : LogEntry) (end : ℕ)
    → Agree k m 0 end
    → Chain m 0 es end
    → Holds k end e
    → Fits e
    → e.level < 256
    → Chain k 0 (es ++ (e ∷ [])) (end + entry_len e)
Chain-written k m es e end a c h f l = Chain-snoc k es e 0 end (Chain-Agree k m es 0 end a c) h f l
