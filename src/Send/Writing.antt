-- ===== src/Send/Writing.antt =====
-- Writers of a packet's block, by the bytes that they write, one after the other.
use moscapsule.Prelude.{
  ℕ, ◌+◌, ◌-◌, ◌≤◌, ◌<◌, ◌^◌, ◌≡◌, ap, ◌∙◌, List, [], ◌∷◌, ◌++◌, append_assoc, append-nil, length,
  length-append, arith,
}
use moscapsule.Outcome.{H, ok, bind, ◌>>◌, pure}
use moscapsule.Packet.{Packet, write_byte, write_uint16, write_string, msb, lsb}
use moscapsule.Packet.Writes.{
  buffer, string_bytes, write_byte-buffer, write_uint16-buffer, write_string-buffer,
}

-- Wherever there is room for them, the writer writes exactly these bytes.
abbrev pub Writes : H Packet (Unit {0}) → List ℕ → Type 0
Writes writer body =
    (p : Packet) (junk : ℕ) (filled : List ℕ) (room : ℕ)
    → p.packet_length < 2 ^ 32
    → length filled + room ≡ p.packet_length
    → length body ≤ room
    → writer (buffer p junk filled room)
      ≡ ok tt (buffer p junk (filled ++ body) (room - length body))

pub nothing-Writes : Writes (pure tt) []
nothing-Writes p junk filled room small e h = ground (arith, append-nil filled)

pub write_byte-Writes : (byte : ℕ) → Writes (write_byte byte) (byte ∷ [])
write_byte-Writes byte p junk filled room small e h =
    write_byte-buffer p junk small byte filled room e h

pub write_uint16-Writes : (word : ℕ) → Writes (write_uint16 word) (msb word ∷ lsb word ∷ [])
write_uint16-Writes word p junk filled room small e h =
    write_uint16-buffer p junk small word filled room e h

pub write_string-Writes :
    (str : List ℕ) → length str < 2 ^ 16 → Writes (write_string str (length str)) (string_bytes str)
write_string-Writes str short p junk filled room small e h =
    write_string-buffer p junk small str filled room e short (omega (arith, h))
    ∙ ap (λ n. ok tt (buffer p junk (filled ++ string_bytes str) n)) (omega arith)

pub then-Writes :
    (first second : H Packet (Unit {0})) (xs ys : List ℕ)
    → Writes first xs
    → Writes second ys
    → Writes (first >> second) (xs ++ ys)
then-Writes first second xs ys f g p junk filled room small e h =
    let size : length (xs ++ ys) ≡ length xs + length ys = length-append xs ys in
    ap (λ o. bind o (λ _. second)) (f p junk filled room small e (omega (arith, h, size)))
    ∙ g p junk (filled ++ xs) (room - length xs) small
        (omega (arith, e, h, size, length-append filled xs)) (omega (arith, h, size))
    ∙ ap (λ zs. ok tt (buffer p junk zs (room - length xs - length ys))) (append_assoc filled xs ys)
    ∙ ap (λ n. ok tt (buffer p junk (filled ++ (xs ++ ys)) n)) (omega (arith, size))
