-- ===== src/Opening/Trying.antt =====
-- What holds along `_mosquitto_try_connect`, given what the opening and the closing of a socket keep.
use moscapsule.Prelude.{
  ℕ, Bool, true, false, Option, none, some, List, [], ◌∷◌, All, ◌≡◌, refl, ◌&&◌, not, if◌then◌else◌,
  is_some,
}
use moscapsule.Types.{Rc, Text}
use moscapsule.Outcome.{Outcome, ok, err, Leaving}
use moscapsule.Dial.{
  Address, Fcntl, flags_set, Reached, at_once, in_progress, refused, Dial, opens, closes,
}
use moscapsule.Opening.{
  Attempt, noted, Tried, passed_over, chosen, is_set, when_nonblock, reach, with_socket, is_inet,
  binds_one, try_loop, try_found, try_connect,
}

-- What holds of the answers of fcntl(2) for each address.
abbrev pub AllAnswers : (Fcntl → Type 0) → Option (List Address) → Type 0
AllAnswers Allowed none = Unit
AllAnswers Allowed (some xs) = All (λ x. Allowed x.nonblock) xs

pub AllAnswers-Unit : (found : Option (List Address)) → AllAnswers (λ _. Unit {0}) found
AllAnswers-Unit none = tt
AllAnswers-Unit (some xs) = go xs
  where
    go : (xs : List Address) → All (λ _. Unit {0}) xs
    go [] = tt
    go (x ∷ xs) = (tt, go xs)

-- `Idle` holds where no socket is held, `Holding s` where `s` is; `Allowed` are the answers of
-- fcntl(2) that may come.
module _ (Idle : Attempt → Type 0) (Holding : ℕ → Attempt → Type 0) (Allowed : Fcntl → Type 0)
    (opened : (s : ℕ) (a : Attempt) → Idle a → Holding s (noted (opens s) a))
    (closed : (s : ℕ) (a : Attempt) → Holding s a → Idle (noted (closes s) a))
    (closed_twice : (answer : Fcntl) (s : ℕ) (a : Attempt)
      → Allowed answer
      → is_set answer ≡ false
      → Holding s a
      → Idle (noted (closes s) (noted (closes s) a))) where
  abbrev Tries : Tried → Type 0
  Tries (passed_over a) = Idle a
  Tries (chosen s pending a) = Holding s a

  when_nonblock-Tries :
      (asked : Bool) (answer : Fcntl) (s : ℕ) (a : Attempt) (next : Attempt → Tried)
      → Allowed answer
      → Holding s a
      → Tries (next a)
      → Tries (when_nonblock asked answer s a next)
  when_nonblock-Tries false answer s a next w h k = k
  when_nonblock-Tries true flags_set s a next w h k = k
  when_nonblock-Tries true Fcntl.no_flags s a next w h k = closed_twice Fcntl.no_flags s a w refl h
  when_nonblock-Tries true Fcntl.not_set s a next w h k = closed_twice Fcntl.not_set s a w refl h

  reach-Tries :
      (r : Reached) (blocking : Bool) (answer : Fcntl) (s : ℕ) (a : Attempt)
      → Allowed answer
      → Holding s a
      → Tries (reach r blocking answer s a)
  reach-Tries at_once blocking answer s a w h =
      when_nonblock-Tries blocking answer s a (chosen s false) w h h
  reach-Tries in_progress blocking answer s a w h =
      when_nonblock-Tries blocking answer s a (chosen s true) w h h
  reach-Tries refused blocking answer s a w h = closed s a h

  if-Tries : (b : Bool) (x y : Tried) → Tries x → Tries y → Tries (if b then x else y)
  if-Tries true x y h k = h
  if-Tries false x y h k = k

  with_socket-Tries :
      (found : Option ℕ) (bound blocking : Bool) (x : Address) (a : Attempt)
      → Allowed x.nonblock
      → Idle a
      → Tries (with_socket found bound blocking x a)
  with_socket-Tries none bound blocking x a w h = h
  with_socket-Tries (some s) bound blocking x a w h =
      if-Tries (not (is_inet x.family)) _ _ (closed s b k) (
        if-Tries (bound && not (binds_one x.binds)) _ _ (closed s b k) (
          when_nonblock-Tries (not blocking) x.nonblock s b (reach x.reached blocking x.nonblock s)
            w k (reach-Tries x.reached blocking x.nonblock s b w k)))
    where
      b : Attempt
      b = noted (opens s) a

      k : Holding s b
      k = opened s a h

  -- The socket that is chosen is held; where none is, nothing is.
  abbrev Chosen : Outcome Attempt (ℕ × Bool) → Type 0
  Chosen o = Leaving (λ found b. Holding found.0 b) Idle o

  try_loop-Chosen :
      (bound blocking : Bool) (xs : List Address) (a : Attempt)
      → All (λ x. Allowed x.nonblock) xs
      → Idle a
      → Chosen (try_loop bound blocking xs a)
  unfolding try_loop
  try_loop-Chosen bound blocking [] a w h = h
  try_loop-Chosen bound blocking (x ∷ xs) a w h =
      go (with_socket x.socket bound blocking x a)
        (with_socket-Tries x.socket bound blocking x a w.0 h)
        (λ b k. try_loop-Chosen bound blocking xs b w.1 k)
    where
      go :
          (t : Tried)
          → Tries t
          → ((b : Attempt) → Idle b → Chosen (try_loop bound blocking xs b))
          → Chosen (elim t [
            | passed_over b ↦ try_loop bound blocking xs b
            | chosen s pending b ↦ ok (s, pending) b
          ])
      go (passed_over b) k next = next b k
      go (chosen s pending b) k next = k

  try_found-Chosen :
      (found : Option (List Address)) (bound blocking local_found : Bool) (a : Attempt)
      → AllAnswers Allowed found
      → Idle a
      → Chosen (try_found found bound blocking local_found a)
  try_found-Chosen none bound blocking local_found a w h = h
  try_found-Chosen (some xs) bound blocking local_found a w h = go (bound && not local_found)
    where
      go : (b : Bool) → Chosen (if b then err Rc.eai a else try_loop bound blocking xs a)
      go true = h
      go false = try_loop-Chosen bound blocking xs a w h

  pub try_connect-Chosen :
      (bind_address : Option Text) (blocking : Bool) (dial : Dial) (a : Attempt)
      → AllAnswers Allowed dial.addresses
      → Idle a
      → Chosen (try_connect bind_address blocking dial a)
  unfolding try_connect
  try_connect-Chosen bind_address blocking dial a w h =
      try_found-Chosen dial.addresses (is_some bind_address) blocking dial.local_found a w h
