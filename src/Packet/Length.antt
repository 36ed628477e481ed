-- ===== src/Packet/Length.antt =====
-- The remaining length: the digits of `_mosquitto_packet_alloc` against those that
-- `_mosquitto_packet_read` sums up.
use moscapsule.Prelude.{
  ℕ, zero, suc, ◌+◌, ◌*◌, ◌/◌, ◌^◌, ◌≤◌, ◌<◌, ◌≡◌, List, [], ◌∷◌, length, arith,
}
use moscapsule.Packet.{remaining_bytes}

-- Digits least significant first, and the top bit set on all but the last.
pub data Digits : ℕ → List ℕ → Type 0 where
  last : (d n : ℕ) → d < 128 → n ≡ d → Digits n (d ∷ [])
  more :
      (d n m : ℕ) (ds : List ℕ)
      → d < 128
      → m ≡ d + 128 * n
      → Digits n ds
      → Digits m ((d + 128) ∷ ds)

-- Below 128 ^ (rounds + 1), the digits of rounds + 1 rounds stand for the number.
pub remaining_bytes-Digits :
    (rounds n : ℕ) → n < 128 ^ suc rounds → Digits n (remaining_bytes (suc rounds) n)
unfolding remaining_bytes
remaining_bytes-Digits zero n h = grind (arith, Digits.last)
remaining_bytes-Digits (suc rounds) n h =
    grind (arith, Digits.last, Digits.more, remaining_bytes-Digits rounds (n / 128))

pub length-remaining_bytes :
    (rounds n : ℕ) → n < 128 ^ rounds → length (remaining_bytes rounds n) ≤ rounds
unfolding remaining_bytes
length-remaining_bytes zero n h = omega arith
length-remaining_bytes (suc rounds) n h = ground (arith, length-remaining_bytes rounds (n / 128))

pub remaining_bytes-full : (n : ℕ) → 2 ^ 28 ≤ n → length (remaining_bytes 5 n) ≡ 5
unfolding remaining_bytes
remaining_bytes-full n h = ground arith

pub remaining_bytes-short :
    (n : ℕ) → n < 2 ^ 28 → (1 ≤ length (remaining_bytes 5 n)) × (length (remaining_bytes 5 n) ≤ 4)
unfolding remaining_bytes
remaining_bytes-short n h = ground arith
