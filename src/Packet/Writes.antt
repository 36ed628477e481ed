-- ===== src/Packet/Writes.antt =====
-- What the write functions leave in a packet's block.
use moscapsule.Prelude.{
  ℕ, zero, suc, ◌+◌, ◌-◌, ◌%◌, ◌^◌, ◌≤◌, ◌<◌, ◌≡◌, refl, sym, List, [], ◌∷◌, ◌++◌, append_assoc,
  length, take, drop, replicate, length-append, length-take, take-append, take-length, arith,
}
use moscapsule.Outcome.{ok}
use moscapsule.Packet.{
  Packet, overwrite, write_byte, write_bytes, write_uint16, write_string, msb, lsb,
}

-- The block holds `filled`, then `room` bytes that nothing has been written to.
unfoldable pub buffer : Packet → ℕ → List ℕ → ℕ → Packet
buffer p junk filled room = record p {
  payload = filled ++ replicate room junk;
  position = length filled;
}

-- A string of the protocol: its length in two bytes, then its bytes.
abbrev pub string_bytes : List ℕ → List ℕ
string_bytes str = msb (length str) ∷ lsb (length str) ∷ str

drop-replicate : (junk n room : ℕ) → drop n (replicate room junk) ≡ replicate (room - n) junk
drop-replicate junk zero room = ground arith
drop-replicate junk (suc n) zero = ground arith
drop-replicate junk (suc n) (suc room) = ground (arith, drop-replicate junk n room)

drop-append-replicate :
    (junk : ℕ) (xs : List ℕ) (k n room : ℕ)
    → k ≡ length xs + n
    → drop k (xs ++ replicate room junk) ≡ replicate (room - n) junk
drop-append-replicate junk [] k n room h = ground (arith, drop-replicate junk n room)
drop-append-replicate junk (x ∷ xs) zero n room h = absurd (omega arith)
drop-append-replicate junk (x ∷ xs) (suc k) n room h =
    drop-append-replicate junk xs k n room (omega arith)

overwrite-buffer :
    (junk : ℕ) (filled bytes : List ℕ) (room : ℕ)
    → overwrite (filled ++ replicate room junk) (length filled) bytes
      ≡ (filled ++ bytes) ++ replicate (room - length bytes) junk
overwrite-buffer junk filled bytes room =
    rw
      (
        take-append (length filled) filled (replicate room junk) refl,
        drop-append-replicate junk filled (length filled + length bytes) (length bytes) room refl,
      )
      (sym (append_assoc filled bytes _))

module _ (p : Packet) (junk : ℕ) (small : p.packet_length < 2 ^ 32) where
  pub write_byte-buffer :
      (byte : ℕ) (filled : List ℕ) (room : ℕ)
      → length filled + room ≡ p.packet_length
      → 1 ≤ room
      → write_byte byte (buffer p junk filled room)
        ≡ ok tt (buffer p junk (filled ++ byte ∷ []) (room - 1))
  unfolding write_byte buffer
  write_byte-buffer byte filled room e h =
      ground
        (arith, overwrite-buffer junk filled (byte ∷ []) room, length-append filled (byte ∷ []))

  pub write_bytes-buffer :
      (bytes filled : List ℕ) (count room : ℕ)
      → length filled + room ≡ p.packet_length
      → count ≤ room
      → count ≤ length bytes
      → write_bytes bytes count (buffer p junk filled room)
        ≡ ok tt (buffer p junk (filled ++ take count bytes) (room - count))
  unfolding write_bytes buffer
  write_bytes-buffer bytes filled count room e h hb = ground (
    arith,
    overwrite-buffer junk filled (take count bytes) room,
    length-append filled (take count bytes),
    length-take count bytes,
  )

  pub write_uint16-buffer :
      (word : ℕ) (filled : List ℕ) (room : ℕ)
      → length filled + room ≡ p.packet_length
      → 2 ≤ room
      → write_uint16 word (buffer p junk filled room)
        ≡ ok tt (buffer p junk (filled ++ msb word ∷ lsb word ∷ []) (room - 2))
  unfolding write_uint16
  write_uint16-buffer word filled room e h =
      rw
        (
          write_byte-buffer (msb word) filled room e (omega arith),
          write_byte-buffer (lsb word) (filled ++ msb word ∷ []) (room - 1)
              (omega (arith, length-append filled (msb word ∷ []))) (omega arith),
          append_assoc filled (msb word ∷ []) (lsb word ∷ []),
        )
        (ground arith)

  pub write_string-buffer :
      (str filled : List ℕ) (room : ℕ)
      → length filled + room ≡ p.packet_length
      → length str < 2 ^ 16
      → 2 + length str ≤ room
      → write_string str (length str) (buffer p junk filled room)
        ≡ ok tt (buffer p junk (filled ++ string_bytes str) (room - (2 + length str)))
  unfolding write_string
  write_string-buffer str filled room e short h =
      let whole : length str % 2 ^ 16 ≡ length str = omega arith in
      let header : List ℕ = msb (length str) ∷ lsb (length str) ∷ [] in
      rw
        (
          whole,
          write_uint16-buffer (length str) filled room e (omega arith),
          write_bytes-buffer str (filled ++ header) (length str) (room - 2)
              (omega (arith, length-append filled header)) (omega arith) (omega arith),
          take-length str,
          append_assoc filled header str,
        )
        (ground arith)
