-- ===== src/Rand.antt =====
-- src/crypto/rand.cpp, the random numbers, and src/crypto/memzero.c, the clearing of memory.
use aex_cpp_sdk.Base.{
  ℕ, zero, suc, ◌≡◌, refl, ap, arith, List, [], ◌∷◌, ◌++◌, length, All, IsByte, u8, u32, drop,
  replicate,
}

-- The generator of the PCG library: a generator from the random device, and the next 32-bit number.
pub record Pcg (Device Generator : Type 0) : Type 0 where
  pub seed : Device → Generator × Device
  pub next : Generator → ℕ × Generator

module _ {Device Generator : Type 0} (pcg : Pcg Device Generator) where
  -- `random32`.
  unfoldable pub random32 : Device → ℕ × Device
  random32 device = let (rng, device') = pcg.seed device in (u32 (pcg.next rng).0, device')

  -- The loop of `random_buffer`, with so many bytes to go.
  unfoldable pub buffer_loop : ℕ → Generator → List ℕ
  buffer_loop zero rng = []
  buffer_loop (suc left) rng = let (n, rng') = pcg.next rng in u8 n ∷ buffer_loop left rng'

  -- `random_buffer`, for fewer than `2^31` bytes: the bytes that it writes.
  unfoldable pub random_buffer : ℕ → Device → List ℕ × Device
  random_buffer len device = let (rng, device') = pcg.seed device in (buffer_loop len rng, device')

  buffer_loop-Bytes :
      (left : ℕ) (rng : Generator)
      → (length (buffer_loop left rng) ≡ left) × All IsByte (buffer_loop left rng)
  unfolding buffer_loop
  buffer_loop-Bytes zero rng = (refl, tt)
  buffer_loop-Bytes (suc left) rng =
      let (n, h) = buffer_loop-Bytes left (pcg.next rng).1 in (ap suc n, (omega arith, h))

-- `memzero` on an array, from its start.
unfoldable pub memzero : ℕ → List ℕ → List ℕ
memzero n s = replicate n 0 ++ drop n s
