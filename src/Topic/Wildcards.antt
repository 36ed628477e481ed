-- ===== src/Topic/Wildcards.antt =====
-- `mosquitto_topic_matches_sub` on a filter with wildcards, against what the MQTT standard says of
-- the levels of a topic.
use moscapsule.Prelude.{
  ℕ, ◌≡◌, refl, ap, sym, subst, true, false, Bool-cases, inl, inr, List, [], ◌∷◌, All, some, ◌==◌,
  ◌&&◌, if◌then◌else◌, arith,
}
use moscapsule.Types.{Text}
use moscapsule.Topic.{skip_level, match_loop, topic_matches_sub, dollar_differs, is_empty}
use moscapsule.Topic.Checks.{IsPlain}
use moscapsule.Topic.Levels.{levels_of, level_of, levels_behind, levels_of-level_of}
use moscapsule.Topic.Filters.{plain_level, valid_filter, no_more}

-- A filter and a topic, as levels: `+` stands for one level, a last `#` for all that follow and for
-- none.
pub data Matches : List Text → List Text → Type 0 where
  end : Matches [] []
  same :
      {filter topic : List Text} (level : Text)
      → Matches filter topic
      → Matches (level ∷ filter) (level ∷ topic)
  any_level :
      {filter topic : List Text} (level : Text)
      → Matches filter topic
      → Matches ((b'+' ∷ []) ∷ filter) (level ∷ topic)
  all_levels : (topic : List Text) → Matches ((b'#' ∷ []) ∷ []) topic

-- The loop inside of a level, or at its start.
abbrev Inside : Text → Text → Type 0
Inside sub topic =
    plain_level (level_of sub) ≡ true
    → valid_filter (levels_behind sub) ≡ true
    → match_loop sub topic ≡ some true
    → (level_of sub ≡ level_of topic) × Matches (levels_behind sub) (levels_behind topic)

abbrev Starting : Text → Text → Type 0
Starting sub topic =
    valid_filter (level_of sub ∷ levels_behind sub) ≡ true
    → match_loop sub topic ≡ some true
    → Matches (level_of sub ∷ levels_behind sub) (level_of topic ∷ levels_behind topic)

-- How a round over equal bytes goes on, with what is left of the filter and of the topic.
pub data Onwards : Text → Text → Type 0 where
  at_parent : Onwards (b'/' ∷ b'#' ∷ []) []
  at_level : Onwards (b'+' ∷ []) []
  at_end : Onwards [] []
  goes_on : {sub topic : Text} → match_loop sub topic ≡ some true → Onwards sub topic

equal_bytes :
    (c : ℕ) (sub topic : Text) → match_loop (c ∷ sub) (c ∷ topic) ≡ some true → Onwards sub topic
unfolding match_loop
equal_bytes c [] [] h = at_end
equal_bytes c [] (t ∷ topic) h = absurd (ground (arith, h))
equal_bytes c (s ∷ []) [] h =
    let e : s ≡ b'+' = ground (arith, h) in subst (λ x. Onwards (x ∷ []) []) (sym e) at_level
equal_bytes c (s ∷ d ∷ []) [] h =
    let e : (s ≡ b'/') × (d ≡ b'#') = ground (arith, h) in
    subst (λ x. Onwards (x ∷ d ∷ []) []) (sym e.0)
      (subst (λ x. Onwards (b'/' ∷ x ∷ []) []) (sym e.1) at_parent)
equal_bytes c (s ∷ d ∷ e ∷ sub) [] h = absurd (ground (arith, h))
equal_bytes c (s ∷ sub) (t ∷ topic) h = goes_on (rw (itself c) at h)
  where
    itself : (x : ℕ) → (x == x) ≡ true
    itself x = ground arith

-- Behind a separator in both.
behind_separator :
    (sub topic : Text)
    → Starting sub topic
    → valid_filter (levels_of sub) ≡ true
    → match_loop (b'/' ∷ sub) (b'/' ∷ topic) ≡ some true
    → Matches (levels_of sub) (levels_of topic)
behind_separator sub topic k v h = go sub topic (equal_bytes b'/' sub topic h) v k
  where
    go :
        (x y : Text)
        → Onwards x y
        → valid_filter (levels_of x) ≡ true
        → Starting x y
        → Matches (levels_of x) (levels_of y)
    go _ _ at_parent v k = same [] (all_levels [])
    go _ _ at_level v k = any_level [] end
    go _ _ at_end v k = same [] end
    go x y (goes_on h) v k =
        rw (levels_of-level_of x, levels_of-level_of y) (k (rw (levels_of-level_of x) at v) h)

-- The bytes of a level one by one.
byte-Inside :
    (c : ℕ) (sub topic : Text)
    → (c == b'/') ≡ false
    → Inside sub topic
    → Inside (c ∷ sub) (c ∷ topic)
byte-Inside c sub topic n k p v h =
    rw (n, level_of, levels_behind)
      (go sub topic (equal_bytes c sub topic h) k (rw (n, level_of) at p)
        (rw (n, levels_behind) at v))
  where
    go :
        (x y : Text)
        → Onwards x y
        → Inside x y
        → plain_level (c ∷ level_of x) ≡ true
        → valid_filter (levels_behind x) ≡ true
        → (c ∷ level_of x ≡ c ∷ level_of y) × Matches (levels_behind x) (levels_behind y)
    go _ _ at_parent k p v = (refl, all_levels [])
    go _ _ at_level k p v = absurd (ground (arith, p))
    go _ _ at_end k p v = (refl, end)
    go x y (goes_on h) k p v =
        let r : (level_of x ≡ level_of y) × Matches (levels_behind x) (levels_behind y) =
          k (ground (arith, p)) v h in
        (ap (◌∷◌ c) r.0, r.1)

separator-Inside : (sub topic : Text) → Starting sub topic → Inside (b'/' ∷ sub) (b'/' ∷ topic)
separator-Inside sub topic k p v h = (refl, behind_separator sub topic k v h)

step-Inside :
    (s t : ℕ) (sub topic : Text)
    → Starting sub topic
    → Inside sub topic
    → Inside (s ∷ sub) (t ∷ topic)
unfolding match_loop
step-Inside s t sub topic k m p v h = elim (Bool-cases (s == t)) [
  | inr n ↦ absurd (ground (arith, p, h, n))
  | inl n ↦
      let e : s ≡ t = ground (arith, n) in
      subst (λ x. Inside (s ∷ sub) (x ∷ topic)) e
        (elim (Bool-cases (s == b'/')) [
          | inl d ↦
              let f : s ≡ b'/' = ground (arith, d) in
              subst (λ x. Inside (x ∷ sub) (x ∷ topic)) (sym f) (separator-Inside sub topic k)
          | inr d ↦ byte-Inside s sub topic d m
        ])
        p v h
]

start_plain :
    (sub topic : Text) → Inside sub topic → plain_level (level_of sub) ≡ true → Starting sub topic
start_plain sub topic k p v h =
    let r : (level_of sub ≡ level_of topic) × Matches (levels_behind sub) (levels_behind topic) =
      k p (ground (arith, v)) h in
    rw r.0 (same (level_of topic) r.1)

-- What `skip_level` leaves: nothing, or the separator and the levels behind it.
pub data Skipped : Text → List Text → Type 0 where
  to_end : Skipped [] []
  to_separator : (rest : Text) → All IsPlain rest → Skipped (b'/' ∷ rest) (levels_of rest)

pub skip_level-Skipped :
    (topic : Text) → All IsPlain topic → Skipped (skip_level topic) (levels_behind topic)
unfolding skip_level
skip_level-Skipped [] h = to_end
skip_level-Skipped (c ∷ topic) h = elim (Bool-cases (c == b'/')) [
  | inl t ↦
      let e : c ≡ b'/' = ground (arith, t) in
      rw (t, skip_level, levels_behind)
        (subst (λ x. Skipped (x ∷ topic) (levels_of topic)) (sym e) (to_separator topic h.1))
  | inr t ↦ rw (t, skip_level, levels_behind) (skip_level-Skipped topic h.1)
]

abbrev BehindFirst : Text → Type 0
BehindFirst [] = Unit
BehindFirst (d ∷ sub) = (topic : Text) → All IsPlain topic → Starting sub topic

-- Behind a `+`: what is left of the filter, and of the topic behind the level.
plus_rest :
    (sub rest : Text) (levels : List Text)
    → Skipped rest levels
    → BehindFirst sub
    → level_of sub ≡ []
    → valid_filter (levels_behind sub) ≡ true
    → (if is_empty rest && is_empty sub then some true else match_loop sub rest) ≡ some true
    → Matches (levels_behind sub) levels
unfolding match_loop
plus_rest [] _ _ to_end k e v h = end
plus_rest [] _ _ (to_separator rest r) k e v h = absurd (ground (arith, h))
plus_rest (d ∷ sub) _ _ to_end k e v h = absurd (ground (arith, h))
plus_rest (d ∷ sub) _ _ (to_separator rest r) k e v h =
    let f : (d == b'/') ≡ true = ground (arith, e) in
    rw (f, levels_behind)
      (behind_separator sub rest (k rest r) (rw (f, levels_behind) at v) (rw (separator d f) at h))
  where
    separator : (x : ℕ) → (x == b'/') ≡ true → x ≡ b'/'
    separator x g = ground (arith, g)

-- A valid first level with a wildcard is the wildcard alone.
data WildLevel : ℕ → Text → List Text → Type 0 where
  plus : (levels : List Text) → valid_filter levels ≡ true → WildLevel b'+' [] levels
  hash : WildLevel b'#' [] []

wild_level :
    (s : ℕ) (level : Text) (levels : List Text)
    → plain_level (s ∷ level) ≡ false
    → valid_filter ((s ∷ level) ∷ levels) ≡ true
    → WildLevel s level levels
wild_level s (d ∷ level) levels l v = absurd (ground (arith, l, v))
wild_level s [] levels l v = elim (Bool-cases (s == b'+')) [
  | inl t ↦
      let e : s ≡ b'+' = ground (arith, t) in
      subst (λ x. WildLevel x [] levels) (sym e) (plus levels (ground (arith, v)))
  | inr t ↦
      let e : s ≡ b'#' = ground (arith, t, l) in
      subst (λ x. WildLevel x [] levels) (sym e) (last levels (ground (arith, t, l, v)))
]
  where
    last : (ls : List Text) → no_more ls ≡ true → WildLevel b'#' [] ls
    last [] n = hash
    last (x ∷ ls) n = absurd (ground (arith, n))

starting_wild :
    (s t : ℕ) (sub topic level : Text) (levels : List Text)
    → All IsPlain (t ∷ topic)
    → BehindFirst sub
    → level_of sub ≡ level
    → levels_behind sub ≡ levels
    → WildLevel s level levels
    → match_loop (s ∷ sub) (t ∷ topic) ≡ some true
    → Matches ((s ∷ level) ∷ levels) (level_of (t ∷ topic) ∷ levels_behind (t ∷ topic))
unfolding match_loop
starting_wild _ t sub topic _ _ p b e f (plus levels v) h =
    let n : (b'+' == t) ≡ false = ground (arith, p.0) in
    any_level (level_of (t ∷ topic)) (
      rw⁻¹ f (
        plus_rest sub (skip_level (t ∷ topic)) (levels_behind (t ∷ topic))
          (skip_level-Skipped (t ∷ topic) p) b e (rw f v) (rw n at h)))
starting_wild _ t sub topic _ _ p b e f hash h =
    all_levels (level_of (t ∷ topic) ∷ levels_behind (t ∷ topic))

step-Starting :
    (s t : ℕ) (sub topic : Text)
    → All IsPlain (t ∷ topic)
    → Starting sub topic
    → Inside sub topic
    → BehindFirst sub
    → Starting (s ∷ sub) (t ∷ topic)
step-Starting s t sub topic p k m b v h = elim (Bool-cases (plain_level (level_of (s ∷ sub)))) [
  | inl l ↦ start_plain (s ∷ sub) (t ∷ topic) (step-Inside s t sub topic k m) l v h
  | inr l ↦ elim (Bool-cases (s == b'/')) [
    | inl n ↦ absurd (ground (arith, l, n))
    | inr n ↦
        rw (n, level_of, levels_behind)
          (starting_wild s t sub topic (level_of sub) (levels_behind sub) p b refl refl
            (wild_level s (level_of sub) (levels_behind sub) (rw (n, level_of) at l)
              (rw (n, level_of, levels_behind) at v))
            h)
  ]
]

loop-Matches : (sub topic : Text) → All IsPlain topic → Starting sub topic × Inside sub topic
unfolding match_loop
loop-Matches [] [] p = (λ v h. absurd (ground (arith, h)), λ w v h. absurd (ground (arith, h)))
loop-Matches [] (t ∷ topic) p =
    (λ v h. absurd (ground (arith, h)), λ w v h. absurd (ground (arith, h)))
loop-Matches (s ∷ sub) [] p =
    (λ v h. absurd (ground (arith, h)), λ w v h. absurd (ground (arith, h)))
loop-Matches (s ∷ []) (t ∷ topic) p =
    let ih : Starting [] topic × Inside [] topic = loop-Matches [] topic p.1 in
    (step-Starting s t [] topic p ih.0 ih.1 tt, step-Inside s t [] topic ih.0 ih.1)
loop-Matches (s ∷ d ∷ sub) (t ∷ topic) p =
    let ih : Starting (d ∷ sub) topic × Inside (d ∷ sub) topic = loop-Matches (d ∷ sub) topic p.1 in
    (
      step-Starting s t (d ∷ sub) topic p ih.0 ih.1 (λ x q. (loop-Matches sub x q).0),
      step-Inside s t (d ∷ sub) topic ih.0 ih.1,
    )

-- A valid filter that is found to match a topic without wildcards matches it level by level.
pub topic_matches_sub-Matches :
    (sub topic : Text)
    → valid_filter (levels_of sub) ≡ true
    → All IsPlain topic
    → topic_matches_sub sub topic ≡ some true
    → Matches (levels_of sub) (levels_of topic)
unfolding topic_matches_sub
topic_matches_sub-Matches sub topic v p h = elim (Bool-cases (dollar_differs sub topic)) [
  | inl d ↦ absurd (ground (arith, d, h))
  | inr d ↦
      rw (levels_of-level_of sub, levels_of-level_of topic)
        ((loop-Matches sub topic p).0 (rw (levels_of-level_of sub) at v) (rw d at h))
]
