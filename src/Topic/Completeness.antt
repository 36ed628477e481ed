-- ===== src/Topic/Completeness.antt =====
-- `mosquitto_topic_matches_sub` finds the topics that match, for filters without `#`.
use moscapsule.Prelude.{
  ℕ, ◌≡◌, ◌≢◌, refl, ◌∙◌, sym, true, false, Bool-cases, inl, inr, List, [], ◌∷◌, All, some, ◌==◌,
  ◌&&◌, if◌then◌else◌, arith,
}
use moscapsule.Types.{Text}
use moscapsule.Topic.{skip_level, match_loop, topic_matches_sub, dollar_differs, is_empty}
use moscapsule.Topic.Checks.{IsPlain}
use moscapsule.Topic.Levels.{levels_of, level_of, levels_behind, levels_of-level_of}
use moscapsule.Topic.Wildcards.{
  Matches, same, any_level, all_levels, Onwards, at_parent, at_level, at_end, goes_on, Skipped,
  to_end, to_separator, skip_level-Skipped,
}

-- A byte other than `#`.
abbrev pub NoHash : ℕ → Type 0
NoHash c = c ≢ b'#'

level_of-NoHash : (sub : Text) → All NoHash sub → level_of sub ≢ b'#' ∷ []
level_of-NoHash [] h e = ground (arith, e)
level_of-NoHash (c ∷ sub) h e = ground (arith, h.0, e)

levels_behind-NoHash :
    (sub level : Text) (levels : List Text)
    → All NoHash sub
    → levels_behind sub ≡ level ∷ levels
    → level ≢ b'#' ∷ []
levels_behind-NoHash [] level levels h e f = ground (arith, e)
levels_behind-NoHash (c ∷ sub) level levels h e f = elim (Bool-cases (c == b'/')) [
  | inl t ↦
      let g : level_of sub ∷ levels_behind sub ≡ level ∷ levels =
        sym (levels_of-level_of sub) ∙ (rw (t, levels_behind) at e) in
      level_of-NoHash sub h.1 (ground (arith, g, f))
  | inr t ↦ levels_behind-NoHash sub level levels h.1 (rw (t, levels_behind) at e) f
]

-- The first levels of a filter that matches.
data First : Text → List Text → Text → List Text → Type 0 where
  same_first : {l : Text} {ls ms : List Text} → Matches ls ms → First l ls l ms
  plus_first : {m : Text} {ls ms : List Text} → Matches ls ms → First (b'+' ∷ []) ls m ms
  hash_first : {m : Text} {ms : List Text} → First (b'#' ∷ []) [] m ms

Matches-First : (l m : Text) (ls ms : List Text) → Matches (l ∷ ls) (m ∷ ms) → First l ls m ms
Matches-First l _ _ _ (same _ h) = same_first h
Matches-First _ m _ _ (any_level _ h) = plus_first h
Matches-First _ _ _ _ (all_levels _) = hash_first

Matches-nil : (l : Text) (ls : List Text) → Matches (l ∷ ls) [] → l ≡ b'#' ∷ []
Matches-nil _ _ (all_levels _) = refl

nil-Matches : (m : Text) (ms : List Text) → ¬ Matches [] (m ∷ ms)
nil-Matches m ms h = elim h [ ]

-- A round over equal bytes ends well where what is left does.
Onwards-match_loop :
    (c : ℕ) (sub topic : Text) → Onwards sub topic → match_loop (c ∷ sub) (c ∷ topic) ≡ some true
unfolding match_loop
Onwards-match_loop c _ _ at_parent = ground arith
Onwards-match_loop c _ _ at_level = ground arith
Onwards-match_loop c _ _ at_end = ground arith
Onwards-match_loop c sub topic (goes_on h) = ground (arith, h)

abbrev Inside : Text → Text → Type 0
Inside sub topic =
    level_of sub ≡ level_of topic
    → Matches (levels_behind sub) (levels_behind topic)
    → Onwards sub topic

abbrev Starting : Text → Text → Type 0
Starting sub topic =
    Matches (level_of sub ∷ levels_behind sub) (level_of topic ∷ levels_behind topic)
    → Onwards sub topic

separators :
    (sub topic : Text)
    → Starting sub topic
    → Matches (levels_of sub) (levels_of topic)
    → match_loop (b'/' ∷ sub) (b'/' ∷ topic) ≡ some true
separators sub topic k h =
    Onwards-match_loop b'/' sub topic
      (k (rw (levels_of-level_of sub, levels_of-level_of topic) at h))

end-Inside : (t : ℕ) (topic : Text) → Inside [] (t ∷ topic)
end-Inside t topic e h = elim (Bool-cases (t == b'/')) [
  | inl d ↦
      absurd
        (nil-Matches (level_of topic) (levels_behind topic) (rw (d, levels_of-level_of topic) at h))
  | inr d ↦ absurd (ground (arith, e, d))
]

ended-Inside : (s : ℕ) (sub : Text) → All NoHash (s ∷ sub) → Inside (s ∷ sub) []
ended-Inside s sub n e h = elim (Bool-cases (s == b'/')) [
  | inl d ↦ absurd (
      level_of-NoHash sub n.1
        (Matches-nil (level_of sub) (levels_behind sub) (rw (d, levels_of-level_of sub) at h)))
  | inr d ↦ absurd (ground (arith, e, d))
]

bytes-Inside :
    (s t : ℕ) (sub topic : Text)
    → Starting sub topic
    → Inside sub topic
    → Inside (s ∷ sub) (t ∷ topic)
bytes-Inside s t sub topic k m e h = elim (Bool-cases (s == b'/')) [
  | inl d ↦
      let f : t ≡ b'/' = ground (arith, d, e) in
      let g : s ≡ b'/' = ground (arith, d) in
      let h' : Matches (levels_of sub) (levels_of topic) = rw (g, f) at h in
      goes_on (rw (g, f) (separators sub topic k h'))
  | inr d ↦
      let f : (t ≡ s) × (level_of sub ≡ level_of topic) = ground (arith, d, e) in
      let h' : Matches (levels_behind (s ∷ sub)) (levels_behind (s ∷ topic)) = rw f.0 at h in
      goes_on (rw f.0 (Onwards-match_loop s sub topic (m f.1 (rw (d, levels_behind) at h'))))
]

abbrev BehindFirst : Text → Type 0
BehindFirst [] = Unit
BehindFirst (d ∷ sub) = (topic : Text) → All IsPlain topic → Starting sub topic

-- Behind a `+` the loop goes on at the separator.
plus_rest :
    (sub rest : Text) (levels : List Text)
    → All NoHash sub
    → Skipped rest levels
    → BehindFirst sub
    → level_of sub ≡ []
    → Matches (levels_behind sub) levels
    → (if is_empty rest && is_empty sub then some true else match_loop sub rest) ≡ some true
plus_rest [] _ _ n to_end k e h = refl
plus_rest [] _ _ n (to_separator rest r) k e h =
    absurd (nil-Matches (level_of rest) (levels_behind rest) (rw (levels_of-level_of rest) at h))
plus_rest (d ∷ sub) rest levels n s k e h =
    let f : d ≡ b'/' = ground (arith, e) in
    behind rest levels s (rw (f, levels_of-level_of sub) at h) f
  where
    behind :
        (x : Text) (ls : List Text)
        → Skipped x ls
        → Matches (level_of sub ∷ levels_behind sub) ls
        → d ≡ b'/'
        → (if is_empty x && false then some true else match_loop (d ∷ sub) x) ≡ some true
    behind _ _ to_end h f =
        absurd (level_of-NoHash sub n.1 (Matches-nil (level_of sub) (levels_behind sub) h))
    behind _ _ (to_separator x r) h f =
        rw f (separators sub x (k x r) (rw (levels_of-level_of sub) h))

plus_end :
    (sub : Text) → All NoHash sub → level_of sub ≡ [] → Matches (levels_behind sub) [] → sub ≡ []
plus_end [] n e h = refl
plus_end (d ∷ sub) n e h =
    let f : d ≡ b'/' = ground (arith, e) in
    absurd (
      level_of-NoHash sub n.1
        (Matches-nil (level_of sub) (levels_behind sub) (rw (f, levels_of-level_of sub) at h)))

abbrev BehindSecond : Text → Type 0
BehindSecond [] = Unit
BehindSecond (s ∷ sub) = BehindFirst sub

starting_plus :
    (sub topic : Text)
    → All NoHash sub
    → All IsPlain topic
    → BehindSecond sub
    → level_of sub ≡ b'+' ∷ []
    → Matches (levels_behind sub) (levels_behind topic)
    → Onwards sub topic
unfolding match_loop
starting_plus [] topic n p b e h = absurd (ground (arith, e))
starting_plus (s ∷ sub) topic n p b e h =
    let f : (s ≡ b'+') × (level_of sub ≡ []) = ground (arith, e) in
    let h' : Matches (levels_behind sub) (levels_behind topic) = rw f.0 at h in
    rw f.0 (go topic p f.1 h')
  where
    go :
        (x : Text)
        → All IsPlain x
        → level_of sub ≡ []
        → Matches (levels_behind sub) (levels_behind x)
        → Onwards (b'+' ∷ sub) x
    go [] q g h = rw (plus_end sub n.1 g h) at_level
    go (t ∷ x) q g h =
        let d : (b'+' == t) ≡ false = ground (arith, q.0) in
        goes_on (
          rw d (
            plus_rest sub (skip_level (t ∷ x)) (levels_behind (t ∷ x)) n.1
              (skip_level-Skipped (t ∷ x) q) b g h))

First-Starting :
    (sub topic l m : Text) (ls ms : List Text)
    → All NoHash sub
    → All IsPlain topic
    → Inside sub topic
    → BehindSecond sub
    → level_of sub ≡ l
    → levels_behind sub ≡ ls
    → level_of topic ≡ m
    → levels_behind topic ≡ ms
    → First l ls m ms
    → Onwards sub topic
First-Starting sub topic _ _ _ _ n p k b e f g i (same_first h) = k (e ∙ sym g) (rw (f, i) h)
First-Starting sub topic _ _ _ _ n p k b e f g i (plus_first h) =
    starting_plus sub topic n p b e (rw (f, i) h)
First-Starting sub topic _ _ _ _ n p k b e f g i hash_first = absurd (level_of-NoHash sub n e)

step-Starting :
    (sub topic : Text)
    → All NoHash sub
    → All IsPlain topic
    → Inside sub topic
    → BehindSecond sub
    → Starting sub topic
step-Starting sub topic n p k b h =
    First-Starting sub topic (level_of sub) (level_of topic) (levels_behind sub)
      (levels_behind topic) n p k b refl refl refl refl
      (Matches-First (level_of sub) (level_of topic) (levels_behind sub) (levels_behind topic) h)

loop-Onwards :
    (sub topic : Text) → All NoHash sub → All IsPlain topic → Starting sub topic × Inside sub topic
loop-Onwards [] [] n p = (λ h. at_end, λ e h. at_end)
loop-Onwards [] (t ∷ topic) n p =
    (step-Starting [] (t ∷ topic) n p (end-Inside t topic) tt, end-Inside t topic)
loop-Onwards (s ∷ []) [] n p =
    (step-Starting (s ∷ []) [] n p (ended-Inside s [] n) tt, ended-Inside s [] n)
loop-Onwards (s ∷ d ∷ sub) [] n p = (
  step-Starting (s ∷ d ∷ sub) [] n p (ended-Inside s (d ∷ sub) n)
      (λ x q. (loop-Onwards sub x n.1.1 q).0),
  ended-Inside s (d ∷ sub) n,
)
loop-Onwards (s ∷ []) (t ∷ topic) n p =
    let ih : Starting [] topic × Inside [] topic = loop-Onwards [] topic tt p.1 in
    let k : Inside (s ∷ []) (t ∷ topic) = bytes-Inside s t [] topic ih.0 ih.1 in
    (step-Starting (s ∷ []) (t ∷ topic) n p k tt, k)
loop-Onwards (s ∷ d ∷ sub) (t ∷ topic) n p =
    let ih : Starting (d ∷ sub) topic × Inside (d ∷ sub) topic =
      loop-Onwards (d ∷ sub) topic n.1 p.1 in
    let k : Inside (s ∷ d ∷ sub) (t ∷ topic) = bytes-Inside s t (d ∷ sub) topic ih.0 ih.1 in
    (step-Starting (s ∷ d ∷ sub) (t ∷ topic) n p k (λ x q. (loop-Onwards sub x n.1.1 q).0), k)

Onwards-match_loop_cons :
    (s t : ℕ) (sub topic : Text)
    → Onwards (s ∷ sub) (t ∷ topic)
    → match_loop (s ∷ sub) (t ∷ topic) ≡ some true
Onwards-match_loop_cons s t sub topic (goes_on h) = h

-- A filter without `#` that matches a topic level by level is found to match it, where neither is
-- empty, the topic has no wildcard, and both or neither begin with `$`.
pub Matches-topic_matches_sub :
    (s t : ℕ) (sub topic : Text)
    → All NoHash (s ∷ sub)
    → All IsPlain (t ∷ topic)
    → dollar_differs (s ∷ sub) (t ∷ topic) ≡ false
    → Matches (levels_of (s ∷ sub)) (levels_of (t ∷ topic))
    → topic_matches_sub (s ∷ sub) (t ∷ topic) ≡ some true
unfolding topic_matches_sub
Matches-topic_matches_sub s t sub topic n p d h = rw d (
    Onwards-match_loop_cons s t sub topic (
      (loop-Onwards (s ∷ sub) (t ∷ topic) n p).0
        (rw (levels_of-level_of (s ∷ sub), levels_of-level_of (t ∷ topic)) at h)))
