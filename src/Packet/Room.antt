-- ===== src/Packet/Room.antt =====
-- The write functions end in a packet that has room for what they write.
use moscapsule.Prelude.{ℕ, ◌+◌, ◌%◌, ◌^◌, ◌≤◌, ◌<◌, ◌≡◌, true, List, leb, arith}
use moscapsule.Outcome.{Holds, Holds-bind}
use moscapsule.Packet.{
  Packet, wrap32, write_byte, write_bytes, write_uint16, write_string, msb, lsb, allocated,
}
use moscapsule.Packet.Length.{remaining_bytes-short}

-- At least `n` bytes may still be written.
pub record Room (n : ℕ) (p : Packet) : Type 0 where
  pub fits : p.position + n ≤ p.packet_length
  pub small : p.packet_length < 2 ^ 32

pub Room-weaken : (k n : ℕ) (p : Packet) → k ≤ n → Room n p → Room k p
Room-weaken k n p h r = record { fits = omega (arith, h, r.fits); small = r.small }

pub write_byte-Room :
    (byte n : ℕ) (p : Packet) → Room (1 + n) p → Holds (λ _ p'. Room n p') (write_byte byte p)
unfolding write_byte
write_byte-Room byte n p r =
    let t : leb (wrap32 (p.position + 1)) p.packet_length ≡ true = ground (arith, r) in
    rw t (record { fits = omega (arith, r.fits); small = r.small })

pub write_bytes-Room :
    (bytes : List ℕ) (count n : ℕ) (p : Packet)
    → Room (count + n) p
    → Holds (λ _ p'. Room n p') (write_bytes bytes count p)
unfolding write_bytes
write_bytes-Room bytes count n p r =
    let t : leb (wrap32 (p.position + count)) p.packet_length ≡ true = ground (arith, r) in
    rw t (record { fits = omega (arith, r.fits); small = r.small })

pub write_uint16-Room :
    (word n : ℕ) (p : Packet) → Room (2 + n) p → Holds (λ _ p'. Room n p') (write_uint16 word p)
unfolding write_uint16
write_uint16-Room word n p r =
    Holds-bind (λ _ p'. Room (1 + n) p') _ (write_byte (msb word) p) _
      (write_byte-Room (msb word) (1 + n) p (Room-weaken (1 + (1 + n)) (2 + n) p (omega arith) r))
      (λ _ p' r'. write_byte-Room (lsb word) n p' r')

-- The length is taken as 16 bits, so a longer string writes less than the caller has counted.
pub write_string-Room :
    (str : List ℕ) (len n : ℕ) (p : Packet)
    → Room (2 + len + n) p
    → Holds (λ _ p'. Room n p') (write_string str len p)
unfolding write_string
write_string-Room str len n p r =
    let k : ℕ = len % 2 ^ 16 in
    Holds-bind (λ _ p'. Room (k + n) p') _ (write_uint16 k p) _
      (write_uint16-Room k (k + n) p (Room-weaken (2 + (k + n)) (2 + len + n) p (omega arith) r))
      (λ _ p' r'. write_bytes-Room str k n p' r')

pub allocated-Room :
    (junk : ℕ) (p : Packet)
    → p.remaining_length < 2 ^ 28
    → Room p.remaining_length (allocated junk p)
unfolding allocated
allocated-Room junk p small = record {
  fits = omega arith;
  small = omega (arith, remaining_bytes-short p.remaining_length small);
}
