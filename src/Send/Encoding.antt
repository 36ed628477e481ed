-- ===== src/Send/Encoding.antt =====
-- The bytes of a PUBLISH.
use moscapsule.Prelude.{
  ℕ, suc, ◌+◌, ◌-◌, ◌≤◌, ◌<◌, ◌^◌, ◌≡◌, refl, ap, ◌∙◌, Bool-cases, inl, inr, List, [], ◌∷◌, ◌++◌,
  append_assoc, append-nil, if◌then◌else◌, ltb, length, lt→ltb, length-append, take-length, arith,
}
use moscapsule.Types.{Text}
use moscapsule.Outcome.{ok}
use moscapsule.Packet.{Packet, allocated, remaining_bytes, msb, lsb}
use moscapsule.Packet.Length.{remaining_bytes-short}
use moscapsule.Packet.Writes.{
  buffer, string_bytes, write_bytes-buffer, write_uint16-buffer, write_string-buffer,
}
use moscapsule.Send.{request, write_publish, write_mid, write_payload, mid_length, publish_length}

-- What `_mosquitto_packet_alloc` leaves: the fixed header, and room for the rest.
pub allocated-buffer :
    (junk : ℕ) (p : Packet)
    → allocated junk p
      ≡ buffer
          (allocated junk p)
          junk
          (p.command ∷ remaining_bytes 5 p.remaining_length)
          p.remaining_length
unfolding allocated buffer
allocated-buffer junk p = ground arith

pub allocated-packet_length :
    (junk : ℕ) (p : Packet)
    → (allocated junk p).packet_length
      ≡ p.remaining_length + 1 + length (remaining_bytes 5 p.remaining_length)
unfolding allocated
allocated-packet_length junk p = refl

-- A block with no room left.
pub buffer-full :
    (p : Packet) (junk : ℕ) (filled : List ℕ)
    → buffer p junk filled 0 ≡ record p { payload = filled; position = length filled }
unfolding buffer
buffer-full p junk filled = ground (arith, append-nil filled)

abbrev pub mid_bytes : ℕ → ℕ → List ℕ
mid_bytes mid qos = if ltb 0 qos then msb mid ∷ lsb mid ∷ [] else []

-- The variable header and the payload of a PUBLISH, as MQTT lays them out.
abbrev pub publish_bytes : ℕ → Text → List ℕ → ℕ → List ℕ
publish_bytes mid topic payload qos = string_bytes topic ++ (mid_bytes mid qos ++ payload)

module _ (p : Packet) (junk : ℕ) (small : p.packet_length < 2 ^ 32) where
  write_mid-buffer :
      (mid qos : ℕ) (filled : List ℕ) (room : ℕ)
      → length filled + room ≡ p.packet_length
      → mid_length qos ≤ room
      → write_mid mid qos (buffer p junk filled room)
        ≡ ok tt (buffer p junk (filled ++ mid_bytes mid qos) (room - mid_length qos))
  write_mid-buffer mid qos filled room e h = elim (Bool-cases (ltb 0 qos)) [
    | inl t ↦ rw t (write_uint16-buffer p junk small mid filled room e (rw t at h))
    | inr t ↦ rw t (ground (arith, append-nil filled))
  ]

  write_payload-buffer :
      (payload filled : List ℕ) (room : ℕ)
      → length filled + room ≡ p.packet_length
      → length payload ≤ room
      → write_payload payload (buffer p junk filled room)
        ≡ ok tt (buffer p junk (filled ++ payload) (room - length payload))
  write_payload-buffer [] filled room e h = ground (arith, append-nil filled)
  write_payload-buffer (b ∷ bs) filled room e h = rw (
    lt→ltb 0 (suc (length bs)) (omega arith),
    write_bytes-buffer p junk small (b ∷ bs) filled (suc (length bs)) room e h (omega arith),
    take-length bs,
  )

  pub write_publish-buffer :
      (mid : ℕ) (topic payload filled : List ℕ) (qos : ℕ)
      → length filled + publish_length topic qos payload ≡ p.packet_length
      → length topic < 2 ^ 16
      → write_publish mid topic payload qos
          (buffer p junk filled (publish_length topic qos payload))
        ≡ ok tt (buffer p junk (filled ++ publish_bytes mid topic payload qos) 0)
  unfolding write_publish
  write_publish-buffer mid topic payload filled qos e short =
      let room : ℕ = publish_length topic qos payload in
      let named : List ℕ = filled ++ string_bytes topic in
      let room' : ℕ = room - (2 + length topic) in
      let e' : length named + room' ≡ p.packet_length =
        omega (arith, length-append filled (string_bytes topic)) in
      let e'' : length (named ++ mid_bytes mid qos) + (room' - mid_length qos) ≡ p.packet_length =
        ground (arith, length-append named (mid_bytes mid qos), e') in
      rw
        (
          write_string-buffer p junk small topic filled room e short (omega arith),
          write_mid-buffer mid qos named room' e' (omega arith),
          write_payload-buffer payload (named ++ mid_bytes mid qos) (room' - mid_length qos) e''
              (omega arith),
        )
        (ground (
          arith,
          append_assoc filled (string_bytes topic) (mid_bytes mid qos),
          append_assoc filled (string_bytes topic ++ mid_bytes mid qos) payload,
          append_assoc (string_bytes topic) (mid_bytes mid qos) payload,
        ))

-- The packet that `_mosquitto_send_real_publish` hands to the queue.
abbrev pub publish_packet : ℕ → ℕ → ℕ → Text → List ℕ → ℕ → Packet
publish_packet junk command mid topic payload qos =
    let n : ℕ = publish_length topic qos payload in
    record (allocated junk (request mid command n)) {
      payload = (command ∷ remaining_bytes 5 n) ++ publish_bytes mid topic payload qos;
      position = length ((command ∷ remaining_bytes 5 n) ++ publish_bytes mid topic payload qos);
    }

pub write_publish-allocated :
    (junk command mid : ℕ) (topic payload : List ℕ) (qos : ℕ)
    → length topic < 2 ^ 16
    → publish_length topic qos payload < 2 ^ 28
    → write_publish mid topic payload qos
        (allocated junk (request mid command (publish_length topic qos payload)))
      ≡ ok tt (publish_packet junk command mid topic payload qos)
write_publish-allocated junk command mid topic payload qos short small =
    let n : ℕ = publish_length topic qos payload in
    let q : Packet = request mid command n in
    let p : Packet = allocated junk q in
    let header : List ℕ = command ∷ remaining_bytes 5 n in
    let e : length header + n ≡ p.packet_length = omega (arith, allocated-packet_length junk q) in
    let few : p.packet_length < 2 ^ 32 =
      omega (arith, allocated-packet_length junk q, remaining_bytes-short n small) in
    ap (write_publish mid topic payload qos) (allocated-buffer junk q)
    ∙ write_publish-buffer p junk few mid topic payload header qos e short
    ∙ ap (ok tt) (buffer-full p junk (header ++ publish_bytes mid topic payload qos))
