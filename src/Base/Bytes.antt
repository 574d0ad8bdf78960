-- ===== src/Base/Bytes.antt =====
-- Byte memory: what a `uint8_t *` of the firmware points to, as a function from offsets to bytes.
-- Reads past an object's end are reads of that function, so the model can tell them apart.
use Prim.Native.Nat.{ℕ, zero, suc, ◌+◌, ◌≤◌, ◌<◌}
use mathlib.Core.Path.{◌≡◌, refl, ap}
use mathlib.Core.List.{List, [], ◌∷◌}
use native.Mathlib.Omega.{arith}
use companion_robot.Base.Tests.{if◌then◌else◌, ◌==◌}
use companion_robot.Base.Lists.{length}

abbrev pub Memory : Type 0
Memory = ℕ → ℕ

-- `memset(p, 0, n)` over all of the object.
abbrev pub zeroed : Memory
zeroed j = 0

-- `p + a`.
abbrev pub at : Memory → ℕ → Memory
at m a = λ k. m (a + k)

-- `p[a] = v`.
unfoldable pub store : ℕ → ℕ → Memory → Memory
store a v m = λ j. if j == a then v else m j

-- `p[a] = b0; p[a + 1] = b1; ...`, in that order.
unfoldable pub store_bytes : ℕ → List ℕ → Memory → Memory
unfolding store
store_bytes a [] m = m
store_bytes a (b ∷ bs) m = store_bytes (suc a) bs (store a b m)

-- The `n` bytes from offset `a` on.
unfoldable pub load_bytes : ℕ → ℕ → Memory → List ℕ
load_bytes a zero m = []
load_bytes a (suc n) m = m a ∷ load_bytes (suc a) n m

pub store_bytes_below : (bs : List ℕ) (a j : ℕ) (m : Memory) → j < a → store_bytes a bs m j ≡ m j
unfolding store_bytes
store_bytes_below [] a j m h = refl
store_bytes_below (b ∷ bs) a j m h = ground (arith, store_bytes_below bs (suc a) j (store a b m))

pub store_bytes_above :
    (bs : List ℕ) (a j : ℕ) (m : Memory) → a + length bs ≤ j → store_bytes a bs m j ≡ m j
unfolding store_bytes
store_bytes_above [] a j m h = refl
store_bytes_above (b ∷ bs) a j m h = ground (arith, store_bytes_above bs (suc a) j (store a b m))

store_self : (a v : ℕ) (m : Memory) → store a v m a ≡ v
unfolding store
store_self a v m = ground arith

pub load-store_bytes :
    (bs : List ℕ) (a : ℕ) (m : Memory) → load_bytes a (length bs) (store_bytes a bs m) ≡ bs
unfolding store_bytes load_bytes
load-store_bytes [] a m = refl
load-store_bytes (b ∷ bs) a m = ground (
  arith,
  store_bytes_below bs (suc a) a (store a b m),
  store_self a b m,
  load-store_bytes bs (suc a) (store a b m),
)

-- Loads see only the range they read.
pub load_bytes_agree :
    (n a b : ℕ) (m k : Memory)
    → ((j : ℕ) → j < n → m (a + j) ≡ k (b + j))
    → load_bytes a n m ≡ load_bytes b n k
unfolding load_bytes
load_bytes_agree zero a b m k h = refl
load_bytes_agree (suc n) a b m k h =
    ground (arith, h 0, load_bytes_agree n (suc a) (suc b) m k (λ j p. ground (arith, h (suc j))))

pub length-load_bytes : (n a : ℕ) (m : Memory) → length (load_bytes a n m) ≡ n
unfolding load_bytes
length-load_bytes zero a m = refl
length-load_bytes (suc n) a m = ap suc (length-load_bytes n (suc a) m)
