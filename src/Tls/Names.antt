-- ===== src/Tls/Names.antt =====
-- Which host names a name with a wildcard is for.
use moscapsule.Prelude.{
  ℕ, ◌≡◌, ◌≢◌, ◌↔◌, refl, sym, subst, ap, inl, inr, Bool, true, false, Bool-cases, some, [], ◌∷◌,
  ◌++◌, All, ◌==◌, arith,
}
use moscapsule.Types.{Text}
use moscapsule.Tls.{lower, same_caseless, after_label, some_or, cmp_hostname_wildcard}

-- The text without upper-case letters.
abbrev pub lowers : Text → Text
lowers [] = []
lowers (c ∷ cs) = lower c ∷ lowers cs

same_caseless-true : (a b : Text) → same_caseless a b ≡ true → lowers a ≡ lowers b
unfolding same_caseless
same_caseless-true [] [] e = refl
same_caseless-true [] (b ∷ bs) e = absurd (ground (arith, e))
same_caseless-true (a ∷ xs) [] e = absurd (ground (arith, e))
same_caseless-true (a ∷ xs) (b ∷ bs) e = elim (Bool-cases (lower a == lower b)) [
  | inl t ↦
      let head : lower a ≡ lower b = ground (arith, t) in
      let tail : same_caseless xs bs ≡ true = ground (arith, e, t) in
      grind (arith, head, same_caseless-true xs bs tail)
  | inr t ↦ absurd (ground (arith, e, t))
]

same_caseless-lowers : (a b : Text) → lowers a ≡ lowers b → same_caseless a b ≡ true
unfolding same_caseless
same_caseless-lowers [] [] e = refl
same_caseless-lowers [] (b ∷ bs) e = absurd (grind (arith, e))
same_caseless-lowers (a ∷ xs) [] e = absurd (grind (arith, e))
same_caseless-lowers (a ∷ xs) (b ∷ bs) e =
    let head : lower a ≡ lower b = grind (arith, e) in
    let tail : lowers xs ≡ lowers bs = grind (arith, e) in
    let t : (lower a == lower b) ≡ true = ground (arith, head) in
    rw (t, same_caseless-lowers xs bs tail) refl

abbrev pub IsNoDot : ℕ → Type 0
IsNoDot c = c ≢ b'.'

after_label-label :
    (label : Text) (s : ℕ) (suffix : Text)
    → All IsNoDot label
    → after_label (label ++ b'.' ∷ s ∷ suffix) ≡ some (s ∷ suffix)
unfolding after_label
after_label-label [] s suffix h = refl
after_label-label (c ∷ []) s suffix h =
    let t : (c == b'.') ≡ false = ground (arith, h.0) in rw (t, after_label) refl
after_label-label (c ∷ d ∷ label) s suffix h =
    let t : (c == b'.') ≡ false = ground (arith, h.0) in
    rw (t, after_label) (after_label-label (d ∷ label) s suffix h.1)

cmp-behind_label :
    (rest : Text) (label : Text) (s : ℕ) (suffix : Text)
    → All IsNoDot label
    → cmp_hostname_wildcard (b'*' ∷ b'.' ∷ rest) (label ++ b'.' ∷ s ∷ suffix)
      ≡ some (same_caseless rest (s ∷ suffix))
unfolding cmp_hostname_wildcard
cmp-behind_label rest [] s suffix h =
    ap (λ o. some (same_caseless rest (some_or o (b'.' ∷ s ∷ suffix))))
      (after_label-label [] s suffix h)
cmp-behind_label rest (c ∷ label) s suffix h =
    ap (λ o. some (same_caseless rest (some_or o (c ∷ label ++ b'.' ∷ s ∷ suffix))))
      (after_label-label (c ∷ label) s suffix h)

some-true : (b : Bool) → some b ≡ some true → b ≡ true
some-true true e = refl
some-true false e = absurd (grind (arith, e))

-- A wildcard stands for exactly the host name's first label: a name `*.rest` is for a host name whose
-- first label is followed by a suffix of a byte at least if and only if `rest` is that suffix, up to
-- the case of letters.
pub cmp_hostname_wildcard-label :
    (rest label : Text) (s : ℕ) (suffix : Text)
    → All IsNoDot label
    → (cmp_hostname_wildcard (b'*' ∷ b'.' ∷ rest) (label ++ b'.' ∷ s ∷ suffix) ≡ some true)
      ↔ (lowers rest ≡ lowers (s ∷ suffix))
cmp_hostname_wildcard-label rest label s suffix h = (
  λ e.
      same_caseless-true rest (s ∷ suffix)
        (some-true _ (subst (λ o. o ≡ some true) (cmp-behind_label rest label s suffix h) e)),
  λ e.
      subst (λ o. o ≡ some true) (sym (cmp-behind_label rest label s suffix h))
        (ap some (same_caseless-lowers rest (s ∷ suffix) e)),
)
