-- ===== src/Topic/Matching.antt =====
-- `mosquitto_topic_matches_sub` on a subscription without wildcards.
use moscapsule.Prelude.{
  ℕ, ◌≡◌, ◌≢◌, ◌↔◌, refl, sym, ap, ◌∙◌, subst, true, false, Bool, Bool-cases, inl, inr, some,
  Option, [], ◌∷◌, All, ◌==◌, ◌&&◌, if◌then◌else◌, arith,
}
use moscapsule.Types.{Text}
use moscapsule.Topic.{
  match_loop, topic_matches_sub, dollar_differs, is_rest_wildcard, is_one, is_empty,
}
use moscapsule.Topic.Checks.{IsPlain}

-- The wildcards that the loop looks for are not there.
plain-is_one : (str : Text) → All IsPlain str → is_one b'+' str ≡ false
plain-is_one [] h = refl
plain-is_one (c ∷ []) h = ground (arith, h.0)
plain-is_one (c ∷ d ∷ str) h = refl

plain-is_hash : (str : Text) → All IsPlain str → is_one b'#' str ≡ false
plain-is_hash [] h = refl
plain-is_hash (c ∷ []) h = ground (arith, h.0)
plain-is_hash (c ∷ d ∷ str) h = refl

plain-is_rest_wildcard : (str : Text) → All IsPlain str → is_rest_wildcard str ≡ false
plain-is_rest_wildcard [] h = refl
plain-is_rest_wildcard (c ∷ str) h = ground (arith, plain-is_hash str h.1)

-- One round of the loop over equal bytes.
round :
    (s : ℕ) (sub topic : Text)
    → All IsPlain sub
    → match_loop (s ∷ sub) (s ∷ topic)
      ≡ (if is_empty sub && is_empty topic then some true else match_loop sub topic)
unfolding match_loop
round s sub topic h =
    let t : (s == s) ≡ true = ground arith in
    ground (arith, t, plain-is_rest_wildcard sub h, plain-is_one sub h)

other_byte :
    (s t : ℕ) (sub topic : Text) → IsPlain s → s ≢ t → match_loop (s ∷ sub) (t ∷ topic) ≡ some false
unfolding match_loop
other_byte s t sub topic h n = ground (arith, h, n)

loop_self : (s : ℕ) (sub : Text) → All IsPlain sub → match_loop (s ∷ sub) (s ∷ sub) ≡ some true
loop_self s [] h = round s [] [] h
loop_self s (c ∷ sub) h = round s (c ∷ sub) (c ∷ sub) h ∙ loop_self c sub h.1

false_is_not_true : {A : Type 0} (o : Option Bool) → o ≡ some false → o ≡ some true → A
false_is_not_true o e f = absurd (go (sym e ∙ f))
  where
    go : ¬ (some false ≡ some true)
    go p = ground (arith, p)

rest_equal :
    (sub topic : Text)
    → (if is_empty sub && is_empty topic then some true else match_loop sub topic) ≡ some true
    → (match_loop sub topic ≡ some true → sub ≡ topic)
    → sub ≡ topic
rest_equal [] [] e k = refl
rest_equal [] (t ∷ topic) e k = k e
rest_equal (s ∷ sub) topic e k = k e

loop-equal : (sub topic : Text) → All IsPlain sub → match_loop sub topic ≡ some true → sub ≡ topic
unfolding match_loop
loop-equal [] [] h e = refl
loop-equal [] (t ∷ topic) h e = false_is_not_true (match_loop [] (t ∷ topic)) refl e
loop-equal (s ∷ sub) [] h e = false_is_not_true (match_loop (s ∷ sub) []) refl e
loop-equal (s ∷ sub) (t ∷ topic) h e = elim (Bool-cases (s == t)) [
  | inr d ↦
      false_is_not_true (match_loop (s ∷ sub) (t ∷ topic))
        (other_byte s t sub topic h.0 (ground (arith, d))) e
  | inl d ↦
      let p : s ≡ t = ground (arith, d) in
      let e' : match_loop (s ∷ sub) (s ∷ topic) ≡ some true =
        subst (λ c. match_loop (s ∷ sub) (c ∷ topic) ≡ some true) (sym p) e in
      ap (λ c. c ∷ sub) p
      ∙ ap (◌∷◌ t) (
          rest_equal sub topic (sym (round s sub topic h.1) ∙ e') (λ q. loop-equal sub topic h.1 q))
]

-- A subscription that is not empty and has no wildcard matches exactly the topic that it is.
pub topic_matches_sub-plain :
    (s : ℕ) (sub topic : Text)
    → All IsPlain (s ∷ sub)
    → (topic_matches_sub (s ∷ sub) topic ≡ some true) ↔ (s ∷ sub ≡ topic)
unfolding topic_matches_sub
topic_matches_sub-plain s sub topic h = (equal, λ e. rw⁻¹ e itself)
  where
    itself : topic_matches_sub (s ∷ sub) (s ∷ sub) ≡ some true
    itself =
        let d : dollar_differs (s ∷ sub) (s ∷ sub) ≡ false = ground arith in
        rw d (loop_self s sub h.1)

    equal : topic_matches_sub (s ∷ sub) topic ≡ some true → s ∷ sub ≡ topic
    equal e = elim (Bool-cases (dollar_differs (s ∷ sub) topic)) [
      | inl d ↦
          let f : topic_matches_sub (s ∷ sub) topic ≡ some false = rw d refl in
          false_is_not_true (topic_matches_sub (s ∷ sub) topic) f e
      | inr d ↦
          let f : topic_matches_sub (s ∷ sub) topic ≡ match_loop (s ∷ sub) topic = rw d refl in
          loop-equal (s ∷ sub) topic h (sym f ∙ e)
    ]
