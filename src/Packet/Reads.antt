-- ===== src/Packet/Reads.antt =====
-- The read functions stay inside the packet's block.
use moscapsule.Prelude.{
  ℕ, ◌+◌, ◌≤◌, ◌<◌, ◌^◌, ◌≡◌, refl, true, false, length, get_elem?-some, ltb, leb, arith,
}
use native.Mathlib.Decide.{dec_le}
use moscapsule.Outcome.{Holds, Holds-bind, Holds-weaken}
use moscapsule.Packet.{Packet, wrap32, require, fetch, copy_out, read_byte, read_bytes, read_uint16}

-- A packet under a handler: the block holds the remaining length, and the cursor is in it.
pub record InBlock (p : Packet) : Type 0 where
  pub whole : length p.payload ≡ p.remaining_length
  pub within : p.position ≤ p.remaining_length
  pub small : p.remaining_length < 2 ^ 28

pub require-Holds :
    (n : ℕ) (p : Packet)
    → InBlock p
    → n < 2 ^ 28
    → Holds (λ _ p'. (p' ≡ p) × (p.position + n ≤ p.remaining_length)) (require n p)
unfolding require
require-Holds n p b h = elim (dec_le (p.position + n) p.remaining_length) [
  | yes enough ↦
      let t : ltb p.remaining_length (wrap32 (p.position + n)) ≡ false = ground (arith, b) in
      rw t (refl, enough)
  | no short ↦
      let t : ltb p.remaining_length (wrap32 (p.position + n)) ≡ true = ground (arith, b) in rw t tt
]

pub fetch-Holds :
    (p : Packet)
    → InBlock p
    → p.position + 1 ≤ p.remaining_length
    → Holds (λ _ p'. p' ≡ record p { position = p.position + 1 }) (fetch p)
unfolding fetch
fetch-Holds p b h =
    let (x, e) = get_elem?-some p.payload p.position (omega (arith, b)) in rw (e, fetch) refl

pub copy_out-Holds :
    (n : ℕ) (p : Packet)
    → InBlock p
    → p.position + n ≤ p.remaining_length
    → Holds (λ _ p'. InBlock p') (copy_out n p)
unfolding copy_out
copy_out-Holds n p b h =
    let t : leb (p.position + n) (length p.payload) ≡ true = ground (arith, b) in
    rw t (record { whole = b.whole; within = omega (arith, b); small = b.small })

advanced :
    (p : Packet) (n : ℕ)
    → InBlock p
    → p.position + n ≤ p.remaining_length
    → InBlock (record p { position = p.position + n })
advanced p n b h = record { whole = b.whole; within = h; small = b.small }

-- Each reads within the block or refuses.
pub read_byte-Holds :
    (p : Packet)
    → InBlock p
    → Holds (λ _ p'. InBlock p' × (p'.position ≡ p.position + 1)) (read_byte p)
unfolding read_byte
read_byte-Holds p b =
    Holds-bind (λ _ p'. (p' ≡ p) × (p.position + 1 ≤ p.remaining_length)) _ (require 1 p) _
      (require-Holds 1 p b (omega arith))
      λ _ p' h.
        rw h.0 (
          Holds-weaken _ _ (fetch p) (fetch-Holds p b h.1) λ _ q e. rw e (advanced p 1 b h.1, refl))

pub read_bytes-Holds :
    (n : ℕ) (p : Packet) → InBlock p → n < 2 ^ 28 → Holds (λ _ p'. InBlock p') (read_bytes n p)
unfolding read_bytes
read_bytes-Holds n p b s =
    Holds-bind _ _ (require n p) _ (require-Holds n p b s)
      λ _ p' h. rw h.0 (copy_out-Holds n p b h.1)

pub read_uint16-Holds :
    (p : Packet) → InBlock p → Holds (λ w p'. InBlock p' × (w < 2 ^ 16)) (read_uint16 p)
unfolding read_uint16
read_uint16-Holds p b =
    Holds-bind (λ _ p'. (p' ≡ p) × (p.position + 2 ≤ p.remaining_length)) _ (require 2 p) _
      (require-Holds 2 p b (omega arith))
      λ _ p' h.
        let room : p.position + 1 ≤ p.remaining_length = omega (arith, h.1) in
        let q : Packet = record p { position = p.position + 1 } in
        let b' : InBlock q = advanced p 1 b room in
        rw h.0 (
          Holds-bind (λ _ r. r ≡ q) _ (fetch p) _ (fetch-Holds p b room)
            λ high r e. rw e (
              Holds-bind (λ _ r'. r' ≡ record q { position = q.position + 1 }) _ (fetch q) _
                (fetch-Holds q b' (omega (arith, h.1)))
                λ low r' e'. (rw e' (advanced q 1 b' (omega (arith, h.1))), omega arith)))
