-- ===== src/Opening/Descriptors.antt =====
-- Every socket that is opened for a connection is the one that is held, or is closed again once.
use moscapsule.Prelude.{
  ℕ, Bool, true, false, Option, none, some, List, [], ◌∷◌, ◌==◌, ◌≡◌, refl, ap, ◌∙◌, if◌then◌else◌,
  arith,
}
use moscapsule.Types.{Text}
use moscapsule.Outcome.{Outcome, Leaving, Leaving-bind}
use moscapsule.Dial.{Fcntl, Dial, TlsAnswers, Sys, opens, closes}
use moscapsule.Conn.{Conn}
use moscapsule.Client.{TlsOptions}
use moscapsule.Opening.{
  Attempt, noted, is_set, try_connect, has_ca, secure, uses_tls, secure_if, open_socket,
}
use moscapsule.Opening.Trying.{AllAnswers, try_connect-Chosen}
use moscapsule.Opening.Securing.{NoSocket, authenticate-Goes, shake-Leaving, secure-Leaving}

abbrev cons_open : ℕ → Option (List ℕ) → Option (List ℕ)
cons_open s none = none
cons_open s (some open_now) = some (s ∷ open_now)

-- The list without a socket, if that is in it.
abbrev without : ℕ → List ℕ → Option (List ℕ)
without s [] = none
without s (t ∷ open_now) = if s == t then some open_now else cons_open t (without s open_now)

abbrev close_open : ℕ → Option (List ℕ) → Option (List ℕ)
close_open s none = none
close_open s (some open_now) = without s open_now

-- The sockets that are open after the calls, the last of which stands first; none at all where a
-- socket was closed that was not open.
abbrev pub open_after : List Sys → Option (List ℕ)
open_after [] = some []
open_after (opens s ∷ past) = cons_open s (open_after past)
open_after (closes s ∷ past) = close_open s (open_after past)
open_after (_ ∷ past) = open_after past

abbrev NoneOpen : Attempt → Type 0
NoneOpen a = open_after a.calls ≡ some []

abbrev OneOpen : ℕ → Attempt → Type 0
OneOpen s a = open_after a.calls ≡ some (s ∷ [])

opened_one : (s : ℕ) (a : Attempt) → NoneOpen a → OneOpen s (noted (opens s) a)
opened_one s a h = ap (cons_open s) h

closed_one : (s : ℕ) (a : Attempt) → OneOpen s a → NoneOpen (noted (closes s) a)
closed_one s a h = ap (close_open s) h ∙ itself
  where
    itself : without s (s ∷ []) ≡ some []
    itself = ground arith

-- fcntl(2) sets a fresh socket non-blocking.
abbrev pub SetsFlags : Fcntl → Type 0
SetsFlags answer = is_set answer ≡ true

never_twice :
    (answer : Fcntl) (s : ℕ) (a : Attempt)
    → SetsFlags answer
    → is_set answer ≡ false
    → OneOpen s a
    → NoneOpen (noted (closes s) (noted (closes s) a))
never_twice answer s a h e k = absurd (ground (arith, h, e))

module _ (s : ℕ) where
  abbrev Goes : Outcome Attempt (Unit {0}) → Type 0
  Goes o = Leaving (λ _ a. OneOpen s a) NoneOpen o

  noting_one : (call : Sys) (a : Attempt) → NoSocket call → OneOpen s a → OneOpen s (noted call a)
  noting_one (opens t) a n h = absurd n
  noting_one (closes t) a n h = absurd n
  noting_one _ a n h = h

  secure-Goes :
      (o : TlsOptions) (t : TlsAnswers) (a : Attempt) → OneOpen s a → Goes (secure o t s a)
  secure-Goes o t =
      secure-Leaving (OneOpen s) (OneOpen s) NoneOpen (λ _ a. OneOpen s a) o t s (closed_one s)
        (closed_one s) (λ _ _ _ k. k) (λ _ _ k. k)
        (authenticate-Goes (OneOpen s) NoneOpen s (closed_one s) noting_one (has_ca o) o.psk o t)
        (λ _ _ k. k)
        λ a k e.
          shake-Leaving _ NoneOpen s _ e (λ _ _. k)
            (λ c _. closed_one s (record { conn = c; calls = a.calls }) k)

-- Where fcntl(2) sets each fresh socket non-blocking, the calls for a connection have closed every
-- socket that they opened, once, but on success the one that is then held.
pub open_socket-descriptors :
    (o : TlsOptions) (bind_address : Option Text) (blocking : Bool) (dial : Dial) (c : Conn)
    → AllAnswers SetsFlags dial.addresses
    → Leaving
        (λ _ a. (s : ℕ) × (a.conn.sock ≡ some s) × (open_after a.calls ≡ some (s ∷ [])))
        (λ a. open_after a.calls ≡ some [])
        (open_socket o bind_address blocking dial (record { conn = c; calls = [] }))
unfolding open_socket
open_socket-descriptors o bind_address blocking dial c w =
    Leaving-bind (λ found b. OneOpen found.0 b) _ NoneOpen
      (try_connect bind_address blocking dial _) _
      (try_connect-Chosen NoneOpen OneOpen SetsFlags opened_one closed_one never_twice bind_address
        blocking dial (record { conn = c; calls = [] }) w refl)
      λ found b k.
        Leaving-bind _ _ NoneOpen (secure_if (uses_tls o) o dial.tls found.0 b) _
          (secured (uses_tls o) found.0 b k) (λ _ d l. (found.0, refl, l))
  where
    secured : (u : Bool) (s : ℕ) (b : Attempt) → OneOpen s b → Goes s (secure_if u o dial.tls s b)
    secured false s b k = k
    secured true s b k = secure-Goes s o dial.tls b k
