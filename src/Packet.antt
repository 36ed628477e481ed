-- ===== src/Packet.antt =====
-- `struct _mosquitto_packet` of mosquitto/lib/mosquitto_internal.h with its cursor functions in
-- mosquitto/lib/net_mosq.c and the header digits of `_mosquitto_packet_alloc` (util_mosq.c).
-- Bit masks on bytes are written as the division and remainder that they stand for, and sums of
-- uint32_t as their remainder by 2 ^ 32.
pub mod Length
pub mod Writes
pub mod Reads
pub mod Room
use moscapsule.Prelude.{
  ℕ, zero, suc, ◌+◌, ◌*◌, ◌/◌, ◌%◌, ◌^◌, ℤ, pos, Bool, Option, none, some, List, [], ◌∷◌, ◌++◌, ltb,
  leb, if◌then◌else◌, length, get_elem?, take, drop, replicate,
}
use moscapsule.Types.{Rc}
use moscapsule.Outcome.{Outcome, H, ok, err, crash, ◌>>=◌, ◌>>◌, pure}

-- A NULL payload is the empty list.
pub record Packet : Type 0 where
  pub payload : List ℕ
  pub remaining_mult : ℕ
  pub remaining_length : ℕ
  pub packet_length : ℕ
  pub to_process : ℕ
  pub position : ℕ
  pub mid : ℕ
  pub command : ℕ
  pub remaining_count : ℤ

abbrev pub wrap32 : ℕ → ℕ
wrap32 n = n % 2 ^ 32

-- `_mosquitto_packet_cleanup`
unfoldable pub packet_cleanup : Packet → Packet
packet_cleanup p = record p {
  command = 0;
  remaining_count = pos 0;
  remaining_mult = 1;
  remaining_length = 0;
  payload = [];
  to_process = 0;
  position = 0;
}

-- A packet from `_mosquitto_calloc`.
unfoldable pub zeroed : Packet
zeroed = record {
  payload = [];
  remaining_mult = 0;
  remaining_length = 0;
  packet_length = 0;
  to_process = 0;
  position = 0;
  mid = 0;
  command = 0;
  remaining_count = pos 0;
}

-- The `do ... while` of `_mosquitto_packet_alloc`, with the rounds that are left of its five.
unfoldable pub remaining_bytes : ℕ → ℕ → List ℕ
remaining_bytes zero n = []
remaining_bytes (suc rounds) n =
    let rest = remaining_bytes rounds (n / 128) in
    if ltb 0 (n / 128) then (n % 128 + 128) ∷ rest else (n % 128) ∷ []

-- The packet that `_mosquitto_packet_alloc` leaves over a block of memory that holds `junk`.
unfoldable pub allocated : ℕ → Packet → Packet
unfolding remaining_bytes
allocated junk p =
    let digits = remaining_bytes 5 p.remaining_length in
    let size = p.remaining_length + 1 + length digits in
    record p {
      remaining_count = pos (length digits);
      packet_length = size;
      payload = p.command ∷ (digits ++ replicate (p.remaining_length) junk);
      position = 1 + length digits;
    }

-- `memcpy(&buffer[i], bytes, n)` for the `n` elements of `bytes`.
abbrev pub overwrite : List ℕ → ℕ → List ℕ → List ℕ
overwrite buffer i bytes = take i buffer ++ (bytes ++ drop (i + length bytes) buffer)

-- `packet->payload[packet->pos+offset] = byte`, in the block that `payload` is.
unfoldable pub store_at : ℕ → ℕ → H Packet (Unit {0})
store_at offset byte p =
    if ltb (p.position + offset) (length p.payload)
    then ok tt (record p { payload = overwrite p.payload (p.position + offset) (byte ∷ []) })
    else crash

-- `_mosquitto_write_byte`
unfoldable pub write_byte : ℕ → H Packet (Unit {0})
write_byte byte p =
    if leb (wrap32 (p.position + 1)) p.packet_length
    then ok tt (record p {
      payload = overwrite p.payload p.position (byte ∷ []);
      position = p.position + 1;
    })
    else crash

-- `_mosquitto_write_bytes`, of the first `count` bytes of `bytes`
unfoldable pub write_bytes : List ℕ → ℕ → H Packet (Unit {0})
write_bytes bytes count p =
    if leb (wrap32 (p.position + count)) p.packet_length
    then ok tt (record p {
      payload = overwrite p.payload p.position (take count bytes);
      position = p.position + count;
    })
    else crash

-- MOSQ_MSB and MOSQ_LSB
abbrev pub msb : ℕ → ℕ
msb a = a / 256 % 256

abbrev pub lsb : ℕ → ℕ
lsb a = a % 256

-- `_mosquitto_write_uint16`
unfoldable pub write_uint16 : ℕ → H Packet (Unit {0})
write_uint16 word = do write_byte (msb word); write_byte (lsb word)

-- `_mosquitto_write_string`: the caller's length is converted to uint16_t.
unfoldable pub write_string : List ℕ → ℕ → H Packet (Unit {0})
write_string str len = do write_uint16 (len % 2 ^ 16); write_bytes str (len % 2 ^ 16)

-- `packet->payload[packet->pos]; packet->pos++`
unfoldable pub fetch : H Packet ℕ
fetch p = elim (get_elem? p.payload p.position) [
  | none ↦ crash
  | some byte ↦ ok byte (record p { position = p.position + 1 })
]

-- The test of `packet->pos+count > packet->remaining_length`.
unfoldable pub require : ℕ → H Packet (Unit {0})
require count p =
    if ltb p.remaining_length (wrap32 (p.position + count)) then err Rc.protocol p else ok tt p

-- `memcpy(bytes, &(packet->payload[packet->pos]), count); packet->pos += count`
unfoldable pub copy_out : ℕ → H Packet (List ℕ)
copy_out count p =
    if leb (p.position + count) (length p.payload)
    then ok (take count (drop p.position p.payload))
        (record p { position = wrap32 (p.position + count) })
    else crash

-- `_mosquitto_read_byte`
unfoldable pub read_byte : H Packet ℕ
unfolding require fetch
read_byte = do require 1; fetch

-- `_mosquitto_read_bytes`
unfoldable pub read_bytes : ℕ → H Packet (List ℕ)
unfolding require copy_out
read_bytes count = do require count; copy_out count

-- `_mosquitto_read_uint16`
unfoldable pub read_uint16 : H Packet ℕ
unfolding require fetch
read_uint16 = do require 2; high ← fetch; low ← fetch; pure ((high * 256 + low) % 2 ^ 16)
