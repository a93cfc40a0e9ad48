-- ===== src/Session.antt =====
-- What the scripts do to the world: requests to a web service and readings of the clock, one after
-- the other, in code that may raise. The service and the clock are parameters; their answers may
-- depend on all that happened before. The API key, the headers and the timeouts are the same in
-- every request of a script and are left out, and so is what is printed.
pub mod Trace
pub mod Steps
pub mod Total
pub mod Runs
use yyou.Common.{
  ℕ, Bool, true, false, ◌||◌, List, [], ◌∷◌, ◌++◌, ◌==◌, Option, none, some, ◌≡◌, refl, ◌⊎◌, inl,
  inr, if◌then◌else◌,
}
use yyou.Datetime.{Datetime}
use yyou.Text.{Text}

pub data Outcome {ℓ} (A : Type ℓ) : Type ℓ where
  ok : A → Outcome A
  raised : Outcome A

-- `r.status_code`, `r.text` and `r.json()`.
pub record Response (B : Type 0) : Type 0 where
  pub status_code : ℕ
  pub text : Text
  pub json : B

pub data Event (R : Type 0) : Type 0 where
  sent : R → Event R
  read_clock : Event R

-- The service raises where the connection fails. The clock is that of UTC.
pub record World (R B : Type 0) : Type 0 where
  pub respond : List (Event R) → R → Outcome (Response B)
  pub clock : List (Event R) → Datetime

abbrev pub Action {ℓ} : Type 0 → Type ℓ → Type ℓ
Action R A = List (Event R) → Outcome A × List (Event R)

abbrev pub or_value {ℓ} : {A : Type ℓ} → Outcome A → A → A
or_value (ok a) d = a
or_value raised d = d

pub Outcome-cases {ℓ} : {A : Type ℓ} (r : Outcome A) → (r ≡ raised) ⊎ ((a : A) × (r ≡ ok a))
Outcome-cases (ok a) = inr (a, refl)
Outcome-cases raised = inl refl

module _ {R : Type 0} where
  unfoldable pub pure {ℓ} : {A : Type ℓ} → A → Action R A
  pure a h = (ok a, h)

  -- `raise Exception(…)`
  unfoldable pub fault {ℓ} : {A : Type ℓ} → Action R A
  fault h = (raised, h)

  abbrev pub and_then {ℓ κ} : {A : Type ℓ} {B : Type κ} → Outcome A → (A → Action R B) → Action R B
  and_then (ok a) f h = f a h
  and_then raised f h = (raised, h)

  infixl 5 ◌>>=◌ ◌>>◌
  unfoldable pub ◌>>=◌ {ℓ κ} :
      {A : Type ℓ} {B : Type κ} → Action R A → (A → Action R B) → Action R B
  m >>= f = λ h. let (r, h') = m h in and_then r f h'

  abbrev pub ◌>>◌ {ℓ κ} : {A : Type ℓ} {B : Type κ} → Action R A → Action R B → Action R B
  m >> n = m >>= λ _. n

  -- `try: body` / `except BaseException: return value`
  unfoldable pub attempt {ℓ} : {A : Type ℓ} → Action R A → A → Action R A
  attempt body value h = let (r, h') = body h in (ok (or_value r value), h')

  -- Raises unless the test holds.
  unfoldable pub guard : Bool → Action R (Unit {0})
  guard true h = (ok tt, h)
  guard false h = (raised, h)

  unfoldable pub from_option {ℓ} : {A : Type ℓ} → Option A → Action R A
  from_option none h = (raised, h)
  from_option (some a) h = (ok a, h)

  -- A test for `None`.
  unfoldable pub when_some {ℓ κ} :
      {A : Type ℓ} {B : Type κ} → Option A → Action R B → (A → Action R B) → Action R B
  when_some none d f = d
  when_some (some a) d f = f a

module _ {R B : Type 0} (w : World R B) where
  unfoldable pub send : R → Action R (Response B)
  send r h = (w.respond h r, h ++ (sent r ∷ []))

  unfoldable pub utcnow : Action R Datetime
  utcnow h = (ok (w.clock h), h ++ (read_clock ∷ []))

-- `r.status_code == 200`
abbrev pub is_200 : {B : Type 0} → Response B → Bool
is_200 r = r.status_code == 200

-- `not ((r.status_code != 200) and (r.status_code != 201))`
abbrev pub is_200_or_201 : {B : Type 0} → Response B → Bool
is_200_or_201 r = r.status_code == 200 || r.status_code == 201

-- To compute with all of these.
unfoldable pub effects : Unit {0}
unfolding pure fault ◌>>=◌ attempt guard from_option when_some send utcnow
effects = tt
