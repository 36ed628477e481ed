-- ===== src/Topic/Levels.antt =====
-- `mosquitto_sub_topic_tokenise` against the levels of a topic.
use moscapsule.Prelude.{
  ℕ, ◌≡◌, refl, ap, ◌∙◌, sym, Bool-cases, inl, inr, Option, List, [], ◌∷◌, ◌++◌, ◌==◌,
  if◌then◌else◌, arith,
}
use moscapsule.Types.{Text}
use moscapsule.Topic.{token_of}

-- A level that comes before the others is joined to the first of them.
abbrev joined : Text → List Text → List Text
joined token [] = token ∷ []
joined token (level ∷ levels) = (token ++ level) ∷ levels

-- The runs of bytes between the separators of a topic.
abbrev pub levels_of : Text → List Text
levels_of [] = [] ∷ []
levels_of (c ∷ str) = if c == b'/' then [] ∷ levels_of str else joined (c ∷ []) (levels_of str)

abbrev pub tokens_of : List Text → List (Option Text)
tokens_of [] = []
tokens_of (level ∷ levels) = token_of level ∷ tokens_of levels

-- Levels with separators between them are the topic again.
abbrev pub joined_by_separators : List Text → Text
joined_by_separators [] = []
joined_by_separators (level ∷ []) = level
joined_by_separators (level ∷ next ∷ levels) =
    level ++ (b'/' ∷ joined_by_separators (next ∷ levels))

-- There is one level at least.
levels_of-cons : (str : Text) → (l : Text) × (ls : List Text) × (levels_of str ≡ l ∷ ls)
levels_of-cons [] = ([], [], refl)
levels_of-cons (c ∷ str) = elim (Bool-cases (c == b'/')) [
  | inl t ↦ ([], levels_of str, rw (t, levels_of) refl)
  | inr t ↦
      let (l, ls, e) = levels_of-cons str in (c ∷ l, ls, rw (t, levels_of) (ap (joined (c ∷ [])) e))
]

-- The first level, and those behind it.
abbrev pub level_of : Text → Text
level_of [] = []
level_of (c ∷ str) = if c == b'/' then [] else c ∷ level_of str

abbrev pub levels_behind : Text → List Text
levels_behind [] = []
levels_behind (c ∷ str) = if c == b'/' then levels_of str else levels_behind str

pub levels_of-level_of : (str : Text) → levels_of str ≡ level_of str ∷ levels_behind str
levels_of-level_of [] = refl
levels_of-level_of (c ∷ str) = elim (Bool-cases (c == b'/')) [
  | inl t ↦ rw (t, levels_of, level_of, levels_behind) refl
  | inr t ↦
      rw (t, levels_of, level_of, levels_behind) (ap (joined (c ∷ [])) (levels_of-level_of str))
]

separated-cons :
    (c : ℕ) (l : Text) (ls : List Text)
    → joined_by_separators ((c ∷ l) ∷ ls) ≡ c ∷ joined_by_separators (l ∷ ls)
separated-cons c l [] = refl
separated-cons c l (next ∷ ls) = refl

-- The levels with separators between them are the topic.
pub levels_of-joined_by_separators : (str : Text) → joined_by_separators (levels_of str) ≡ str
levels_of-joined_by_separators [] = refl
levels_of-joined_by_separators (c ∷ str) =
    let (l, ls, e) = levels_of-cons str in
    let h : joined_by_separators (l ∷ ls) ≡ str =
      ap joined_by_separators (sym e) ∙ levels_of-joined_by_separators str in
    elim (Bool-cases (c == b'/')) [
      | inl t ↦ rw (t, e, levels_of) (ground (arith, t, h))
      | inr t ↦ rw (t, e, levels_of) (separated-cons c l ls ∙ ap (◌∷◌ c) h)
    ]
