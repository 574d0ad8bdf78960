-- ===== src/Storage/Ota.antt =====
-- Firmware updates: firmware/components/storage/ota.c, where all operations but the state are
-- still to be written. Every operation succeeds.
use companion_robot.Base.{ℕ, ◌≡◌, refl, List, [], ◌∷◌, ◌++◌}

-- `ota_state_t`.
pub data OtaState : Type 0 where
  ota_idle : OtaState
  ota_erasing : OtaState
  ota_receiving : OtaState
  ota_verifying : OtaState
  ota_ready : OtaState
  ota_failed : OtaState

-- The calls; `firmware_hash` and the data of a chunk are not looked at.
pub data OtaCall : Type 0 where
  call_start : (total_size : ℕ) → (firmware_hash : List ℕ) → OtaCall
  call_write_chunk : (offset : ℕ) → (chunk : List ℕ) → OtaCall
  call_finish : OtaCall
  call_abort : OtaCall

-- The last assignment to `g_ota_state` of each operation.
unfoldable ota_call : OtaCall → OtaState → OtaState
ota_call (call_start total_size firmware_hash) s = ota_receiving
ota_call (call_write_chunk offset chunk) s = s
ota_call call_finish s = ota_ready
ota_call call_abort s = ota_failed

unfoldable run_ota : List OtaCall → OtaState → OtaState
run_ota [] s = s
run_ota (c ∷ cs) s = run_ota cs (ota_call c s)

-- The calls that write chunks.
abbrev chunk_writes : List (ℕ × List ℕ) → List OtaCall
chunk_writes [] = []
chunk_writes ((offset, chunk) ∷ cs) = call_write_chunk offset chunk ∷ chunk_writes cs

writes_keep :
    (cs : List (ℕ × List ℕ)) (rest : List OtaCall) (s : OtaState)
    → run_ota (chunk_writes cs ++ rest) s ≡ run_ota rest s
unfolding run_ota ota_call
writes_keep [] rest s = refl
writes_keep ((offset, chunk) ∷ cs) rest s = writes_keep cs rest s

-- An update is ready whatever its hash is and whatever chunks are written, none included.
update_unverified :
    (total_size : ℕ) (firmware_hash : List ℕ) (cs : List (ℕ × List ℕ)) (s : OtaState)
    → run_ota (call_start total_size firmware_hash ∷ (chunk_writes cs ++ (call_finish ∷ []))) s
      ≡ ota_ready
unfolding run_ota ota_call
update_unverified total_size firmware_hash cs s = writes_keep cs (call_finish ∷ []) ota_receiving
