-- ===== src/Conn/Mid.antt =====
-- `_mosquitto_mid_generate`: which identifiers it returns, one call after the other.
use moscapsule.Prelude.{ℕ, zero, suc, ◌+◌, ◌<◌, ◌%◌, ◌^◌, ◌≡◌, refl, ap, ◌∙◌, List, [], ◌∷◌, arith}
use moscapsule.Outcome.{Outcome, ok, err, crash, state_of}
use moscapsule.Conn.{Conn, mid_generate}

-- The connection after so many calls, and the values that they returned, the last one first.
abbrev pub after_calls : ℕ → Conn → Conn
after_calls zero c = c
after_calls (suc k) c = state_of (after_calls k c) (mid_generate (after_calls k c))

abbrev pub returned : Outcome Conn ℕ → List ℕ → List ℕ
returned (ok mid c) mids = mid ∷ mids
returned (err rc c) mids = mids
returned crash mids = mids

abbrev pub values : ℕ → Conn → List ℕ
values zero c = []
values (suc k) c = returned (mid_generate (after_calls k c)) (values k c)

-- The identifiers that follow `last`, counted around from 1 to 65535, the last one first.
abbrev pub counted : ℕ → ℕ → List ℕ
counted zero last = []
counted (suc k) last = ((last + k) % 65535 + 1) ∷ counted k last

stored :
    (k : ℕ) (c : Conn)
    → c.last_mid < 2 ^ 16
    → ((after_calls k c).last_mid < 2 ^ 16)
      × ((after_calls k c).last_mid % 65535 ≡ (c.last_mid + k) % 65535)
unfolding mid_generate
stored zero c h = (h, omega arith)
stored (suc k) c h = let (low, e) = stored k c h in (ground (arith, low), ground (arith, low, e))

-- From any identifier that fits 16 bits, and from the 0 of a new client, the calls return the
-- identifiers that follow it, counted around from 1 to 65535.
pub values-counted : (k : ℕ) (c : Conn) → c.last_mid < 2 ^ 16 → values k c ≡ counted k c.last_mid
unfolding mid_generate
values-counted zero c h = refl
values-counted (suc k) c h =
    let (low, e) = stored k c h in
    let rest : values k c ≡ counted k c.last_mid = values-counted k c h in
    ap (λ mid. mid ∷ values k c) (ground (arith, low, e))
    ∙ ap (λ mids. ((c.last_mid + k) % 65535 + 1) ∷ mids) rest
