-- ===== src/Handle/Delivery.antt =====
-- A message of QoS 2 is delivered once: PUBREL takes it out of `in_messages`.
use moscapsule.Prelude.{
  ℕ, ◌≡◌, ◌≢◌, refl, sym, subst, ap, false, Bool-cases, Option, none, some, List, [], ◌∷◌, ◌++◌,
  All, ◌==◌, inl, inr, arith,
}
use moscapsule.Types.{not_found, incoming, MessageAll}
use moscapsule.Outcome.{Outcome, ok, err, crash}
use moscapsule.Client.{Mosquitto}
use moscapsule.Messages.{unlink, message_remove}

-- No message of the list has the identifier.
abbrev pub Lacks : ℕ → List MessageAll → Type 0
Lacks mid xs = All (λ x. x.msg.mid ≢ mid) xs

-- The identifiers of the list are distinct.
abbrev pub Distinct : List MessageAll → Type 0
Distinct [] = Unit {0}
Distinct (x ∷ xs) = Lacks x.msg.mid xs × Distinct xs

-- The list is that of before with the one message taken out.
abbrev pub TakenOut : ℕ → List MessageAll → MessageAll → List MessageAll → Type 0
TakenOut mid xs x rest =
    (front : List MessageAll) × (back : List MessageAll) × (xs ≡ front ++ x ∷ back)
    × (rest ≡ front ++ back)
    × (x.msg.mid ≡ mid)
    × Lacks mid front

abbrev Unlinked : ℕ → List MessageAll → Option (MessageAll × List MessageAll) → Type 0
Unlinked mid xs none = Lacks mid xs
Unlinked mid xs (some (x, rest)) = TakenOut mid xs x rest

unlink-Unlinked : (mid : ℕ) (xs : List MessageAll) → Unlinked mid xs (unlink mid xs)
unfolding unlink
unlink-Unlinked mid [] = tt
unlink-Unlinked mid (y ∷ ys) = elim (Bool-cases (y.msg.mid == mid)) [
  | inl t ↦ rw (t, unlink) ([], ys, refl, refl, ground (arith, t), tt)
  | inr t ↦ other (unlink mid ys) refl (unlink-Unlinked mid ys) t
]
  where
    other :
        (o : Option (MessageAll × List MessageAll))
        → unlink mid ys ≡ o
        → Unlinked mid ys o
        → (y.msg.mid == mid) ≡ false
        → Unlinked mid (y ∷ ys) (unlink mid (y ∷ ys))
    other none e h t = rw (t, e, unlink) (ground (arith, t), h)
    other (some (x, rest)) e (front, back, p, q, i, l) t =
        rw (t, e, unlink) (y ∷ front, back, ap (◌∷◌ y) p, ap (◌∷◌ y) q, i, (ground (arith, t), l))

lacking-unlink : (mid : ℕ) (xs : List MessageAll) → Lacks mid xs → unlink mid xs ≡ none
unfolding unlink
lacking-unlink mid [] h = refl
lacking-unlink mid (y ∷ ys) h =
    let t : (y.msg.mid == mid) ≡ false = ground (arith, h.0) in
    let e : unlink mid ys ≡ none = lacking-unlink mid ys h.1 in rw (t, e, unlink) refl

Lacks-append :
    (mid : ℕ) (xs ys : List MessageAll) → Lacks mid xs → Lacks mid ys → Lacks mid (xs ++ ys)
Lacks-append mid [] ys h k = k
Lacks-append mid (x ∷ xs) ys h k = (h.0, Lacks-append mid xs ys h.1 k)

Distinct-back :
    (front : List MessageAll) (x : MessageAll) (back : List MessageAll)
    → Distinct (front ++ x ∷ back)
    → Lacks x.msg.mid back
Distinct-back [] x back h = h.0
Distinct-back (y ∷ front) x back h = Distinct-back front x back h.1

-- What one removal of an incoming message says, and what a second one with the same identifier does.
abbrev pub Once : ℕ → Mosquitto → MessageAll → Mosquitto → Type 0
Once mid m x m' =
    TakenOut mid m.in_messages x m'.in_messages
    × (message_remove mid incoming m' ≡ err not_found m')

-- With success a message was there and is out; an error says that there is none.
abbrev pub Removed : ℕ → Mosquitto → Outcome Mosquitto MessageAll → Type 0
Removed mid m (ok x m') = Once mid m x m'
Removed mid m (err rc m') = Lacks mid m.in_messages × ((rc ≡ not_found) × (m' ≡ m))
Removed mid m crash = ⊥

-- On distinct identifiers, a removal of an incoming message returns: it takes the message with the
-- identifier alone out of the list, and a second removal finds nothing and changes nothing; or no
-- message has the identifier, the code is MOSQ_ERR_NOT_FOUND, and nothing is changed.
pub message_remove-Once :
    (mid : ℕ) (m : Mosquitto)
    → Distinct m.in_messages
    → Removed mid m (message_remove mid incoming m)
unfolding message_remove
message_remove-Once mid m d = go (unlink mid m.in_messages) refl (unlink-Unlinked mid m.in_messages)
  where
    go :
        (o : Option (MessageAll × List MessageAll))
        → unlink mid m.in_messages ≡ o
        → Unlinked mid m.in_messages o
        → Removed mid m (message_remove mid incoming m)
    go none e h = rw (e, message_remove) (h, (refl, refl))
    go (some (x, rest)) e (front, back, p, q, i, l) =
        let gone : Lacks mid rest = subst (Lacks mid) (sym q) (
          Lacks-append mid front back l
            (subst (λ n. Lacks n back) i (Distinct-back front x back (subst Distinct p d)))) in
        let again : unlink mid rest ≡ none = lacking-unlink mid rest gone in
        rw (e, message_remove) ((front, back, p, q, i, l), rw (again, message_remove) refl)
