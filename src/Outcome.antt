-- ===== src/Outcome.antt =====
-- How a C function leaves its state: it returns MOSQ_ERR_SUCCESS with a value, it returns another
-- code, or the process stops at a failed assertion or an access out of bounds.
use moscapsule.Prelude.{Option, none, some, Bool, true, false, if◌then◌else◌}
use moscapsule.Types.{Rc, success}

pub data Outcome (S A : Type 0) : Type 0 where
  ok : A → S → Outcome S A
  err : Rc → S → Outcome S A
  crash : Outcome S A

-- A function over the state `S`; `if(rc) return rc;` is the bind.
abbrev pub H : Type 0 → Type 0 → Type 0
H S A = S → Outcome S A

abbrev pub bind : {S A B : Type 0} → Outcome S A → (A → S → Outcome S B) → Outcome S B
bind (ok a s) f = f a s
bind (err rc s) f = err rc s
bind crash f = crash

infixl 5 ◌>>=◌ ◌>>◌
abbrev pub ◌>>=◌ : {S A B : Type 0} → H S A → (A → H S B) → H S B
◌>>=◌ m f s = bind (m s) f

abbrev pub ◌>>◌ : {S B : Type 0} → H S (Unit {0}) → H S B → H S B
m >> k = m >>= λ _. k

abbrev pub pure : {S A : Type 0} → A → H S A
pure a s = ok a s

abbrev pub raise : {S A : Type 0} → Rc → H S A
raise rc s = err rc s

abbrev pub modify : {S : Type 0} → (S → S) → H S (Unit {0})
modify f s = ok tt (f s)

abbrev pub get : {S : Type 0} → H S S
get s = ok s s

-- `rc = f(...)`, with the code kept for later.
abbrev pub caught : {S : Type 0} → Outcome S (Unit {0}) → Outcome S Rc
caught (ok _ s) = ok success s
caught (err rc s) = ok rc s
caught crash = crash

abbrev pub attempt : {S : Type 0} → H S (Unit {0}) → H S Rc
attempt m s = caught (m s)

-- `return rc`, with the value for MOSQ_ERR_SUCCESS.
abbrev pub return_code : {S A : Type 0} → Rc → A → H S A
return_code success a s = ok a s
return_code rc a s = err rc s

-- The function ends, with whatever code: no assertion fails and no access is out of bounds.
abbrev pub Ends : {S A : Type 0} → Outcome S A → Type 0
Ends (ok a s) = Unit {0}
Ends (err rc s) = Unit {0}
Ends crash = ⊥

-- What holds of the state whichever code is returned.
abbrev pub After : {S A : Type 0} → (S → Type 0) → Outcome S A → Type 0
After P (ok a s) = P s
After P (err rc s) = P s
After P crash = ⊥

-- The returned code.
abbrev pub code_of : {S A : Type 0} → Rc → Outcome S A → Rc
code_of dead (ok a s) = success
code_of dead (err rc s) = rc
code_of dead crash = dead

abbrev pub state_of : {S A : Type 0} → S → Outcome S A → S
state_of dead (ok a s) = s
state_of dead (err rc s) = s
state_of dead crash = dead

pub return_code-After :
    {S A : Type 0} (P : S → Type 0) (rc : Rc) (a : A) (s : S) → P s → After P (return_code rc a s)
return_code-After P success a s h = h
return_code-After P _ a s h = h

-- A call of which only the success matters.
abbrev pub kept : {S A : Type 0} → Outcome S A → Outcome S (Option A)
kept (ok a s') = ok (some a) s'
kept (err rc s') = ok none s'
kept crash = crash

abbrev pub optional : {S A : Type 0} → H S A → H S (Option A)
optional m s = kept (m s)

-- What holds of a successful result; an error says nothing, and a crash is excluded.
abbrev pub Holds : {S A : Type 0} → (A → S → Type 0) → Outcome S A → Type 0
Holds P (ok a s) = P a s
Holds P (err rc s) = Unit {0}
Holds P crash = ⊥

pub Holds-bind :
    {S A B : Type 0} (P : A → S → Type 0) (Q : B → S → Type 0) (o : Outcome S A)
    (f : A → S → Outcome S B)
    → Holds P o
    → ((a : A) (s : S) → P a s → Holds Q (f a s))
    → Holds Q (bind o f)
Holds-bind P Q (ok a s) f h k = k a s h
Holds-bind P Q (err rc s) f h k = tt
Holds-bind P Q crash f h k = h

pub Ends-bind :
    {S A B : Type 0} (P : A → S → Type 0) (o : Outcome S A) (f : A → S → Outcome S B)
    → Holds P o
    → ((a : A) (s : S) → P a s → Ends (f a s))
    → Ends (bind o f)
Ends-bind P (ok a s) f h k = k a s h
Ends-bind P (err rc s) f h k = tt
Ends-bind P crash f h k = h

pub Ends-Holds : {S A : Type 0} (o : Outcome S A) → Ends o → Holds (λ _ _. Unit {0}) o
Ends-Holds (ok a s) h = tt
Ends-Holds (err rc s) h = tt
Ends-Holds crash h = h

pub After-Ends : {S A : Type 0} (P : S → Type 0) (o : Outcome S A) → After P o → Ends o
After-Ends P (ok a s) h = tt
After-Ends P (err rc s) h = tt
After-Ends P crash h = h

pub return_code-Ends : {S A : Type 0} (rc : Rc) (a : A) (s : S) → Ends (return_code rc a s)
return_code-Ends success a s = tt
return_code-Ends _ a s = tt

pub attempt-Ends : {S : Type 0} (m : H S (Unit {0})) (s : S) → Ends (m s) → Ends (attempt m s)
attempt-Ends {S} m s h = go (m s) h
  where
    go : (o : Outcome S (Unit {0})) → Ends o → Ends (caught o)
    go (ok a t) e = tt
    go (err rc t) e = tt
    go crash e = e

pub if-Ends :
    {S A : Type 0} (b : Bool) (f g : H S A) (s : S)
    → Ends (f s)
    → Ends (g s)
    → Ends ((if b then f else g) s)
if-Ends true f g s h k = h
if-Ends false f g s h k = k

pub Holds-weaken :
    {S A : Type 0} (P Q : A → S → Type 0) (o : Outcome S A)
    → Holds P o
    → ((a : A) (s : S) → P a s → Q a s)
    → Holds Q o
Holds-weaken P Q (ok a s) h k = k a s h
Holds-weaken P Q (err rc s) h k = tt
Holds-weaken P Q crash h k = h

pub After-weaken :
    {S A : Type 0} (P Q : S → Type 0) (o : Outcome S A)
    → After P o
    → ((s : S) → P s → Q s)
    → After Q o
After-weaken P Q (ok a s) h k = k s h
After-weaken P Q (err rc s) h k = k s h
After-weaken P Q crash h k = h

pub After-bind :
    {S A B : Type 0} (P : S → Type 0) (o : Outcome S A) (f : A → S → Outcome S B)
    → After P o
    → ((a : A) (s : S) → P s → After P (f a s))
    → After P (bind o f)
After-bind P (ok a s) f h k = k a s h
After-bind P (err rc s) f h k = h
After-bind P crash f h k = h

-- The same with what a success says beside.
pub After-Holds-bind :
    {S A B : Type 0} (P : S → Type 0) (Q : A → S → Type 0) (o : Outcome S A)
    (f : A → S → Outcome S B)
    → After P o
    → Holds Q o
    → ((a : A) (s : S) → P s → Q a s → After P (f a s))
    → After P (bind o f)
After-Holds-bind P Q (ok a s) f h q k = k a s h q
After-Holds-bind P Q (err rc s) f h q k = h
After-Holds-bind P Q crash f h q k = h

-- What a success leaves, and what a code leaves.
abbrev pub Leaving : {S A : Type 0} → (A → S → Type 0) → (S → Type 0) → Outcome S A → Type 0
Leaving P Q (ok a s) = P a s
Leaving P Q (err rc s) = Q s
Leaving P Q crash = ⊥

pub Leaving-bind :
    {S A B : Type 0} (P : A → S → Type 0) (R : B → S → Type 0) (Q : S → Type 0) (o : Outcome S A)
    (f : A → S → Outcome S B)
    → Leaving P Q o
    → ((a : A) (s : S) → P a s → Leaving R Q (f a s))
    → Leaving R Q (bind o f)
Leaving-bind P R Q (ok a s) f h k = k a s h
Leaving-bind P R Q (err rc s) f h k = h
Leaving-bind P R Q crash f h k = h

-- A bind that changes what holds.
pub After-then :
    {S A B : Type 0} (P Q : S → Type 0) (o : Outcome S A) (f : A → S → Outcome S B)
    → After P o
    → ((s : S) → P s → Q s)
    → ((a : A) (s : S) → P s → After Q (f a s))
    → After Q (bind o f)
After-then P Q (ok a s) f h stop k = k a s h
After-then P Q (err rc s) f h stop k = stop s h
After-then P Q crash f h stop k = h
