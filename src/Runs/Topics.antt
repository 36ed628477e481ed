-- ===== src/Runs/Topics.antt =====
-- Topic filters with wildcards at concrete texts.
use moscapsule.Prelude.{
  ◌≡◌, refl, true, [], ◌∷◌, All, some, ◌&&◌, if◌then◌else◌, leb, length, arith,
}
use moscapsule.Types.{Text, success, inval}
use moscapsule.Topic.{sub_topic_check, topic_matches_sub}
use moscapsule.Topic.Checks.{IsPlain}
use moscapsule.Topic.Levels.{levels_of}
use moscapsule.Topic.Filters.{IsByte, valid_filter, sub_topic_check-valid_filter}
use moscapsule.Topic.Wildcards.{Matches, end, same, any_level, topic_matches_sub-Matches}
use moscapsule.Topic.Completeness.{NoHash, Matches-topic_matches_sub}

-- `+/b/#`, `+/b` and `a/b`
abbrev below_b : Text
below_b = b'+' ∷ b'/' ∷ b'b' ∷ b'/' ∷ b'#' ∷ []

abbrev any_b : Text
any_b = b'+' ∷ b'/' ∷ b'b' ∷ []

abbrev a_b : Text
a_b = b'a' ∷ b'/' ∷ b'b' ∷ []

below_b-IsByte : All IsByte below_b
below_b-IsByte = (omega arith, (omega arith, (omega arith, (omega arith, (omega arith, tt)))))

any_b-NoHash : All NoHash any_b
any_b-NoHash = (omega arith, (omega arith, (omega arith, tt)))

a_b-IsPlain : All IsPlain a_b
a_b-IsPlain =
    ((omega arith, omega arith), ((omega arith, omega arith), ((omega arith, omega arith), tt)))

below_b_found : topic_matches_sub below_b a_b ≡ some true
unfolding topic_matches_sub
below_b_found = refl

sub_topic_check-valid_filter_example :
    sub_topic_check below_b
    ≡ (if valid_filter (levels_of below_b) && leb (length below_b) 65535 then success else inval)
sub_topic_check-valid_filter_example = sub_topic_check-valid_filter below_b below_b-IsByte

topic_matches_sub-Matches_example : Matches (levels_of below_b) (levels_of a_b)
topic_matches_sub-Matches_example =
    topic_matches_sub-Matches below_b a_b refl a_b-IsPlain below_b_found

Matches-topic_matches_sub_example : topic_matches_sub any_b a_b ≡ some true
Matches-topic_matches_sub_example =
    Matches-topic_matches_sub b'+' b'a' (b'/' ∷ b'b' ∷ []) (b'/' ∷ b'b' ∷ []) any_b-NoHash
      a_b-IsPlain refl (any_level (b'a' ∷ []) (same (b'b' ∷ []) end))
