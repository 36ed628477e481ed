-- ===== src/Topic/Filters.antt =====
-- `mosquitto_sub_topic_check` against the levels of a topic filter, as the MQTT standard puts it.
use moscapsule.Prelude.{
  ℕ, suc, ◌+◌, ◌≡◌, ◌≢◌, refl, ap, ◌∙◌, sym, subst, Bool, true, false, Bool-cases, inl, inr, List,
  [], ◌∷◌, All, length, ◌==◌, ◌!=◌, ◌&&◌, ◌||◌, not, leb, ltb, if◌then◌else◌, arith,
}
use moscapsule.Types.{Rc, Text, success, inval}
use moscapsule.Topic.{first, bounds_level, sub_check_loop, sub_topic_check, is_one, is_empty}
use moscapsule.Topic.Levels.{levels_of, level_of, levels_behind, levels_of-level_of}

-- A byte of a C string before its end.
abbrev pub IsByte : ℕ → Type 0
IsByte c = c ≢ 0

abbrev pub is_wildcard : ℕ → Bool
is_wildcard c = c == b'+' || c == b'#'

abbrev pub plain_level : Text → Bool
plain_level [] = true
plain_level (c ∷ level) = not (is_wildcard c) && plain_level level

abbrev pub no_more : List Text → Bool
no_more [] = true
no_more (level ∷ levels) = false

-- Each level is `+`, or without a wildcard, or `#` and the last one.
abbrev pub valid_filter : List Text → Bool
valid_filter [] = true
valid_filter (level ∷ levels) =
    (plain_level level || is_one b'+' level || (is_one b'#' level && no_more levels))
    && valid_filter levels

-- Of the rest of a filter, at the start of a level or inside of one.
abbrev valid_from : Bool → Text → List Text → Bool
valid_from true level levels = valid_filter (level ∷ levels)
valid_from false level levels = plain_level level && valid_filter levels

-- `len` bytes were read before.
abbrev answer : Bool → ℕ → Rc
answer valid len = if valid && leb len 65535 then success else inval

-- The level ends where the string ends or a separator stands.
bounds-empty : (str : Text) → All IsByte str → bounds_level (first str) ≡ is_empty (level_of str)
bounds-empty [] h = refl
bounds-empty (c ∷ str) h = ground (arith, h.0)

ends-empty :
    (str : Text)
    → All IsByte str
    → (first str != 0) ≡ not (is_empty (level_of str) && no_more (levels_behind str))
ends-empty [] h = refl
ends-empty (c ∷ str) h = elim (Bool-cases (c == b'/')) [
  | inl t ↦ rw (t, level_of, levels_behind, levels_of-level_of str) (ground (arith, t))
  | inr t ↦ rw (t, level_of, levels_behind) (ground (arith, h.0, t))
]

one-empty : (c : ℕ) (level : Text) → is_one c (c ∷ level) ≡ is_empty level
one-empty c [] = ground arith
one-empty c (d ∷ level) = refl

-- What the loop says of the rest, behind the byte `c`.
abbrev Rest : ℕ → ℕ → Text → Type 0
Rest len before str =
    sub_check_loop len before str
    ≡ answer (valid_from (bounds_level before) (level_of str) (levels_behind str))
        (len + length str)

-- The number of bytes read and left is the same.
answer_step : (b : Bool) (len n : ℕ) → answer b (len + 1 + n) ≡ answer b (len + suc n)
answer_step b len n = ap (answer b) (omega arith)

rest_end :
    (b : Bool) (len : ℕ)
    → (if ltb 65535 len then inval else success) ≡ answer (valid_from b [] []) (len + 0)
rest_end true len = ground arith
rest_end false len = ground arith

separator-Rest :
    (b : Bool) (len before : ℕ) (str : Text)
    → bounds_level before ≡ b
    → Rest (len + 1) b'/' str
    → Rest len before (b'/' ∷ str)
unfolding sub_check_loop
separator-Rest true len before str u ih =
    rw (u, levels_of-level_of str) (ih ∙ answer_step _ len (length str))
separator-Rest false len before str u ih =
    rw (u, levels_of-level_of str) (ih ∙ answer_step _ len (length str))

-- One byte that does not end a level: `at_bound` and `goes_on` say what follows it.
abbrev byte_check : ℕ → Bool → Bool → Bool → Rc → Rc
byte_check c starts at_bound goes_on rest =
    if c == b'+'
    then if not starts || not at_bound then inval else rest
    else if c == b'#'
    then if not starts || goes_on then inval else rest
    else rest

byte_check-start :
    (c : ℕ) (level : Text) (levels : List Text) (n : ℕ)
    → byte_check c true
        (is_empty level)
        (not (is_empty level && no_more levels))
        (answer (valid_from false level levels) n)
      ≡ answer (valid_from true (c ∷ level) levels) n
byte_check-start c [] [] n = ground arith
byte_check-start c [] (l ∷ ls) n = ground arith
byte_check-start c (d ∷ level) levels n = ground arith

byte_check-inside :
    (c : ℕ) (level : Text) (levels : List Text) (x y : Bool) (n : ℕ)
    → byte_check c false x y (answer (valid_from false level levels) n)
      ≡ answer (valid_from false (c ∷ level) levels) n
byte_check-inside c level levels x y n = ground arith

byte_answer :
    (len c : ℕ) (str : Text)
    → All IsByte (c ∷ str)
    → (c == b'/') ≡ false
    → Rest (len + 1) c str
    → sub_check_loop (len + 1) c str
      ≡ answer (valid_from false (level_of str) (levels_behind str)) (len + suc (length str))
byte_answer len c str h t ih =
    let v : bounds_level c ≡ false = ground (arith, h.0, t) in
    subst
      (λ b.
        sub_check_loop (len + 1) c str
        ≡ answer (valid_from b (level_of str) (levels_behind str)) (len + 1 + length str))
      v ih
    ∙ answer_step (valid_from false (level_of str) (levels_behind str)) len (length str)

byte-Rest :
    (b : Bool) (len before c : ℕ) (str : Text)
    → All IsByte (c ∷ str)
    → (c == b'/') ≡ false
    → bounds_level before ≡ b
    → Rest (len + 1) c str
    → Rest len before (c ∷ str)
unfolding sub_check_loop
byte-Rest true len before c str h t u ih =
    let e : sub_check_loop (len + 1) c str
        ≡ answer (valid_from false (level_of str) (levels_behind str)) (len + suc (length str)) =
      byte_answer len c str h t ih in
    rw (u, t, level_of, levels_behind, bounds-empty str h.1, ends-empty str h.1, e)
      (byte_check-start c (level_of str) (levels_behind str) (len + suc (length str)))
byte-Rest false len before c str h t u ih =
    let e : sub_check_loop (len + 1) c str
        ≡ answer (valid_from false (level_of str) (levels_behind str)) (len + suc (length str)) =
      byte_answer len c str h t ih in
    rw (u, t, level_of, levels_behind, e)
      (byte_check-inside c (level_of str) (levels_behind str) (bounds_level (first str))
        (first str != 0) (len + suc (length str)))

loop-filter : (len before : ℕ) (str : Text) → All IsByte str → Rest len before str
unfolding sub_check_loop
loop-filter len before [] h = rest_end (bounds_level before) len
loop-filter len before (c ∷ str) h =
    let ih : Rest (len + 1) c str = loop-filter (len + 1) c str h.1 in
    elim (Bool-cases (c == b'/')) [
      | inl t ↦
          let e : c ≡ b'/' = ground (arith, t) in
          subst (λ x. Rest len before (x ∷ str)) (sym e)
            (separator-Rest (bounds_level before) len before str refl
              (subst (λ x. Rest (len + 1) x str) e ih))
      | inr t ↦ byte-Rest (bounds_level before) len before c str h t refl ih
    ]

-- A filter of bytes that are not 0 passes exactly if each of its levels is `+`, or has no wildcard,
-- or is `#` and the last one, and it has at most 65535 bytes; any other is refused with
-- MOSQ_ERR_INVAL.
pub sub_topic_check-valid_filter :
    (str : Text)
    → All IsByte str
    → sub_topic_check str
      ≡ (if valid_filter (levels_of str) && leb (length str) 65535 then success else inval)
unfolding sub_topic_check
sub_topic_check-valid_filter str h = rw (levels_of-level_of str) (
    loop-filter 0 0 str h
    ∙ ap (answer (valid_filter (level_of str ∷ levels_behind str))) (omega arith))
