-- ===== src/Topic.antt =====
-- The topic functions of mosquitto/lib/util_mosq.c, and `mosquitto_sub_topic_tokenise` of
-- mosquitto/lib/mosquitto.c. A topic is the list of its bytes, without the closing 0.
pub mod Checks
pub mod Filters
pub mod Completeness
pub mod Levels
pub mod Matching
pub mod Wildcards
use moscapsule.Prelude.{
  ℕ, zero, suc, ◌+◌, Bool, true, false, not, Option, none, some, List, [], ◌∷◌, ◌++◌, ◌&&◌, ◌||◌,
  if◌then◌else◌, ◌==◌, ◌!=◌, ltb, length,
}
use moscapsule.Types.{Rc, Text, success, inval}

-- The byte at a position of a C string: its closing 0 at the end.
abbrev pub first : Text → ℕ
first [] = 0
first (c ∷ str) = c

-- The loop of `mosquitto_pub_topic_check`
unfoldable pub pub_check_loop : ℕ → Text → Rc
pub_check_loop len [] = if ltb 65535 len then inval else success
pub_check_loop len (c ∷ str) =
    let rest = pub_check_loop (len + 1) str in if c == b'+' || c == b'#' then inval else rest

-- `mosquitto_pub_topic_check`
unfoldable pub pub_topic_check : Text → Rc
unfolding pub_check_loop
pub_topic_check str = pub_check_loop 0 str

-- Is the byte the string's end or a separator?
abbrev pub bounds_level : ℕ → Bool
bounds_level c = c == 0 || c == b'/'

-- The loop of `mosquitto_sub_topic_check`, with the byte before.
unfoldable pub sub_check_loop : ℕ → ℕ → Text → Rc
sub_check_loop len before [] = if ltb 65535 len then inval else success
sub_check_loop len before (c ∷ str) =
    let rest = sub_check_loop (len + 1) c str in
    if c == b'+'
    then if not (bounds_level before) || not (bounds_level (first str)) then inval else rest
    else if c == b'#'
    then if not (bounds_level before) || first str != 0 then inval else rest
    else rest

-- `mosquitto_sub_topic_check`
unfoldable pub sub_topic_check : Text → Rc
unfolding sub_check_loop
sub_topic_check str = sub_check_loop 0 0 str

-- `while(tpos < tlen && topic[tpos] != '/') tpos++;`
unfoldable pub skip_level : Text → Text
skip_level [] = []
skip_level (c ∷ topic) = if c == b'/' then c ∷ topic else skip_level topic

-- `strcmp(sub, "+") == 0` and the like, on the rest of the subscription.
abbrev pub is_one : ℕ → Text → Bool
is_one c [] = false
is_one c (d ∷ []) = c == d
is_one c (d ∷ e ∷ str) = false

-- `spos == slen-3 && sub[spos+1] == '/' && sub[spos+2] == '#'`, on what follows `sub[spos]`
abbrev pub is_rest_wildcard : Text → Bool
is_rest_wildcard [] = false
is_rest_wildcard (c ∷ str) = c == b'/' && is_one b'#' str

abbrev pub is_empty : Text → Bool
is_empty [] = true
is_empty (c ∷ str) = false

-- The main loop of `mosquitto_topic_matches_sub` on `sub[spos..]` and `topic[tpos..]`. `none` is a
-- `*result` that is not written.
unfoldable pub match_loop : Text → Text → Option Bool
unfolding skip_level
match_loop [] [] = none
match_loop [] (t ∷ topic) = some false
match_loop (s ∷ sub) [] = some false
match_loop (s ∷ sub) (t ∷ topic) =
    let same = match_loop sub topic in
    let skipped = match_loop sub (skip_level (t ∷ topic)) in
    if s == t
    then if is_empty topic && is_rest_wildcard sub
      then some true
      else if is_empty sub && is_empty topic
      then some true
      else if is_empty topic && is_one b'+' sub
      then some true
      else same
    else if s == b'+'
    then if is_empty (skip_level (t ∷ topic)) && is_empty sub then some true else skipped
    else if s == b'#'
    then some (is_empty sub)
    else some false

-- `(sub[0] == '$' && topic[0] != '$') || (topic[0] == '$' && sub[0] != '$')`, both not empty
abbrev pub dollar_differs : Text → Text → Bool
dollar_differs [] topic = false
dollar_differs (s ∷ sub) [] = false
dollar_differs (s ∷ sub) (t ∷ topic) = (s == b'$' && t != b'$') || (t == b'$' && s != b'$')

-- `mosquitto_topic_matches_sub`: what it writes to `*result`, if anything.
unfoldable pub topic_matches_sub : Text → Text → Option Bool
unfolding match_loop
topic_matches_sub sub topic = if dollar_differs sub topic then some false else match_loop sub topic

abbrev pub token_of : Text → Option Text
token_of [] = none
token_of (c ∷ cs) = some (c ∷ cs)

-- The loop of `mosquitto_sub_topic_tokenise` with the bytes since the last separator, where memory
-- does not run out. An empty level is a NULL pointer, `none`.
unfoldable pub tokenise_loop : Text → Text → List (Option Text)
tokenise_loop token [] = token_of token ∷ []
tokenise_loop token (c ∷ str) =
    let rest = tokenise_loop [] str in
    let longer = tokenise_loop (token ++ c ∷ []) str in
    if c == b'/' then token_of token ∷ rest else longer

-- `hier_count`
unfoldable pub hier_count : Text → ℕ
hier_count [] = 1
hier_count (c ∷ str) = (if c == b'/' then 1 else 0) + hier_count str

-- `mosquitto_sub_topic_tokenise`: the tokens and their count.
unfoldable pub sub_topic_tokenise : Text → List (Option Text) × ℕ
unfolding tokenise_loop hier_count
sub_topic_tokenise str = (tokenise_loop [] str, hier_count str)
