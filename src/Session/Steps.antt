-- ===== src/Session/Steps.antt =====
-- What a chain of actions did, read backwards from its result.
use yyou.Common.{◌≡◌, refl, ap, List, Bool, true, false, Option, none, some, arith}
use yyou.Session.{
  Outcome, ok, raised, Event, Action, and_then, ◌>>=◌, attempt, when_some, or_value, pure,
  from_option, guard,
}

or_value-some {ℓ} :
    {A : Type ℓ} (r : Outcome (Option A)) {a : A} → or_value r none ≡ some a → r ≡ ok (some a)
or_value-some (ok (some b)) e = cc
or_value-some (ok none) e = cc
or_value-some raised e = cc

ok_injective {ℓ} : {A : Type ℓ} (a b : A) → ok a ≡ ok b → a ≡ b
ok_injective a b e = cc

module _ {R : Type 0} where
  pub from_option-ok {ℓ} :
      {A : Type ℓ} (o : Option A) (a : A) (h : List (Event R))
      → (from_option o h).0 ≡ ok a
      → o ≡ some a
  unfolding from_option
  from_option-ok none a h e = absurd (cc)
  from_option-ok (some b) a h e = ap some (ok_injective b a e)

  pub guard-ok : (b : Bool) (h : List (Event R)) {u : Unit {0}} → (guard b h).0 ≡ ok u → b ≡ true
  unfolding guard
  guard-ok true h e = refl
  guard-ok false h e = absurd (cc)

  and_then-ok {ℓ κ} :
      {A : Type ℓ} {B : Type κ} (r : Outcome A) (f : A → Action R B) (h : List (Event R)) {b : B}
      → (and_then r f h).0 ≡ ok b
      → (a : A) × (r ≡ ok a) × ((f a h).0 ≡ ok b) × ((and_then r f h).1 ≡ (f a h).1)
  and_then-ok (ok a) f h e = (a, refl, e, refl)
  and_then-ok raised f h e = cc

  -- A chain that returns has a first step that returns.
  pub bind-ok {ℓ κ} :
      {A : Type ℓ} {B : Type κ} (m : Action R A) (f : A → Action R B) (h : List (Event R)) {b : B}
      → ((m >>= f) h).0 ≡ ok b
      → (a : A) × ((m h).0 ≡ ok a) × ((f a (m h).1).0 ≡ ok b) × (((m >>= f) h).1 ≡ (f a (m h).1).1)
  unfolding ◌>>=◌
  bind-ok m f h e = and_then-ok (m h).0 f (m h).1 e

  -- A `try` whose handler returns `None` has returned a value: so has its body.
  pub attempt-some {ℓ} :
      {A : Type ℓ} (m : Action R (Option A)) (h : List (Event R)) {a : A}
      → (attempt m none h).0 ≡ ok (some a)
      → ((m h).0 ≡ ok (some a)) × ((attempt m none h).1 ≡ (m h).1)
  unfolding attempt
  attempt-some m h e = (or_value-some (m h).0 (ground arith), refl)

  -- A value is reported only if there is one to report.
  pub when_some-some {ℓ κ} :
      {A : Type ℓ} {B : Type κ} (o : Option A) (c : B) (h : List (Event R)) {b : B}
      → (when_some o (pure none) (λ _. pure (some c)) h).0 ≡ ok (some b)
      → (a : A) × (o ≡ some a)
        × (c ≡ b)
        × ((when_some {R = R} o (pure none) (λ _. pure (some c)) h).1 ≡ h)
  unfolding when_some pure
  when_some-some none c h e = absurd (ground arith)
  when_some-some (some a) c h e = (a, refl, cc, refl)

  -- A `try` whose handler returns `False` has returned `True`: so has its body.
  pub attempt-true :
      (m : Action R Bool) (h : List (Event R))
      → (attempt m false h).0 ≡ ok true
      → ((m h).0 ≡ ok true) × ((attempt m false h).1 ≡ (m h).1)
  unfolding attempt
  attempt-true m h e = (or_value-true (m h).0 e, refl)
    where
      or_value-true : (r : Outcome Bool) → ok (or_value r false) ≡ ok true → r ≡ ok true
      or_value-true (ok b) f = f
      or_value-true raised f = cc

  -- What is known of the history when a value is there.
  pub from_option-trace {ℓ} :
      {A : Type ℓ} (o : Option A) (h : List (Event R)) → (from_option o h).1 ≡ h
  unfolding from_option
  from_option-trace none h = refl
  from_option-trace (some a) h = refl

  pub guard-trace : (b : Bool) (h : List (Event R)) → (guard b h).1 ≡ h
  unfolding guard
  guard-trace true h = refl
  guard-trace false h = refl
