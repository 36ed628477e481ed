-- ===== src/Topic/Checks.antt =====
-- `mosquitto_pub_topic_check`: what it lets pass.
use moscapsule.Prelude.{
  ℕ, suc, ◌+◌, ◌≤◌, ◌≡◌, ◌≢◌, refl, false, Bool-cases, inl, inr, [], ◌∷◌, All, length, ◌==◌, ◌||◌,
  ltb, not, ◌!=◌, ◌↔◌, arith,
}
use moscapsule.Types.{Rc, Text, success, fails}
use moscapsule.Topic.{
  pub_check_loop, pub_topic_check, first, bounds_level, sub_check_loop, sub_topic_check,
}

-- A byte that is no wildcard.
abbrev pub IsPlain : ℕ → Type 0
IsPlain c = (c ≢ b'+') × (c ≢ b'#')

loop-success :
    (len : ℕ) (str : Text)
    → All IsPlain str
    → len + length str ≤ 65535
    → pub_check_loop len str ≡ success
unfolding pub_check_loop
loop-success len [] p h = let t : ltb 65535 len ≡ false = ground (arith, h) in rw t refl
loop-success len (c ∷ str) p h =
    let t : (c == b'+' || c == b'#') ≡ false = ground (arith, p.0) in
    rw (t, pub_check_loop) (loop-success (len + 1) str p.1 (omega (arith, h)))

loop-passes :
    (len : ℕ) (str : Text)
    → pub_check_loop len str ≡ success
    → All IsPlain str × (len + length str ≤ 65535)
unfolding pub_check_loop
loop-passes len [] e = (tt, ground (arith, e))
loop-passes len (c ∷ str) e = elim (Bool-cases (c == b'+' || c == b'#')) [
  | inl t ↦ ground (arith, e, t)
  | inr t ↦
      let rest : All IsPlain str × (len + 1 + length str ≤ 65535) =
        loop-passes (len + 1) str (ground (arith, e, t)) in
      ((ground (arith, t), rest.0), omega (arith, rest.1))
]

-- A topic to publish to passes exactly if it has no wildcard and at most 65535 bytes.
pub pub_topic_check-success :
    (str : Text) → (pub_topic_check str ≡ success) ↔ (All IsPlain str × (length str ≤ 65535))
unfolding pub_topic_check
pub_topic_check-success str = (
  λ e.
      let h : All IsPlain str × (0 + length str ≤ 65535) = loop-passes 0 str e in
      (h.0, omega (arith, h.1)),
  λ h. loop-success 0 str h.0 (omega (arith, h.1)),
)

sub_loop-short :
    (len before : ℕ) (str : Text)
    → fails (sub_check_loop len before str) ≡ false
    → len + length str ≤ 65535
unfolding sub_check_loop
sub_loop-short len before [] e = elim (Bool-cases (ltb 65535 len)) [
  | inl t ↦ ground (arith, e, t)
  | inr t ↦ ground (arith, t)
]
sub_loop-short len before (c ∷ str) e =
    let step : fails (sub_check_loop (len + 1) c str) ≡ false → len + suc (length str) ≤ 65535 =
      λ k. omega (arith, sub_loop-short (len + 1) c str k) in
    elim (Bool-cases (c == b'+')) [
      | inl t ↦ elim (Bool-cases (not (bounds_level before) || not (bounds_level (first str)))) [
        | inl u ↦ absurd (ground (arith, e, t, u))
        | inr u ↦ step (ground (arith, e, t, u))
      ]
      | inr t ↦ elim (Bool-cases (c == b'#')) [
        | inl u ↦ elim (Bool-cases (not (bounds_level before) || first str != 0)) [
          | inl v ↦ absurd (ground (arith, e, t, u, v))
          | inr v ↦ step (ground (arith, e, t, u, v))
        ]
        | inr u ↦ step (ground (arith, e, t, u))
      ]
    ]

-- A subscription that passes has at most 65535 bytes.
pub sub_topic_check-short : (str : Text) → fails (sub_topic_check str) ≡ false → length str ≤ 65535
unfolding sub_topic_check
sub_topic_check-short str e = omega (arith, sub_loop-short 0 0 str e)

pub pub_topic_check-short : (str : Text) → fails (pub_topic_check str) ≡ false → length str ≤ 65535
pub_topic_check-short str e = ((pub_topic_check-success str).0 (passed (pub_topic_check str) e)).1
  where
    passed : (rc : Rc) → fails rc ≡ false → rc ≡ success
    passed success k = refl
    passed Rc.conn_pending k = absurd (ground (arith, k))
    passed _ k = absurd (ground (arith, k))
