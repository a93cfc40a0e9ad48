-- ===== src/Session/Total.antt =====
-- Actions that never raise: a predicate on actions, with a rule for each way of building one.
use yyou.Common.{◌≡◌, refl, Bool, true, false, List, Option, none, some, if◌then◌else◌}
use yyou.Session.{Event, Action, ok, pure, attempt, when_some, ◌>>=◌, or_value}

module _ {R : Type 0} where
  -- Whatever has happened before, the action returns a value.
  pub record Returns {ℓ} {A : Type ℓ} (m : Action R A) : Type ℓ where
    pub returned : (h : List (Event R)) → (a : A) × (es : List (Event R)) × (m h ≡ (ok a, es))

  pub Returns-pure {ℓ} : {A : Type ℓ} (a : A) → Returns (pure {R = R} a)
  unfolding pure
  Returns-pure a = record { returned = λ h. (a, h, refl) }

  pub Returns-attempt {ℓ} : {A : Type ℓ} (m : Action R A) (d : A) → Returns (attempt m d)
  unfolding attempt
  Returns-attempt m d = record { returned = λ h. (or_value (m h).0 d, (m h).1, refl) }

  pub Returns-bind {ℓ κ} :
      {A : Type ℓ} {B : Type κ} {m : Action R A} {f : A → Action R B}
      → Returns m
      → ((a : A) → Returns (f a))
      → Returns (m >>= f)
  unfolding ◌>>=◌
  Returns-bind {m} {f} hm hf = record {
    returned = λ h.
        let (a, es, e) = hm.returned h in let (b, fs, g) = (hf a).returned es in (b, fs, rw e g);
  }

  pub Returns-when_some {ℓ κ} :
      {A : Type ℓ} {B : Type κ} (o : Option A) {d : Action R B} {f : A → Action R B}
      → Returns d
      → ((a : A) → Returns (f a))
      → Returns (when_some o d f)
  unfolding when_some
  Returns-when_some none hd hf = hd
  Returns-when_some (some a) hd hf = hf a

  pub Returns-if {ℓ} :
      {A : Type ℓ} (b : Bool) {m n : Action R A}
      → Returns m
      → Returns n
      → Returns (if b then m else n)
  Returns-if true hm hn = hm
  Returns-if false hm hn = hn

pub ruleset total = (Returns-pure, Returns-attempt, Returns-bind, Returns-when_some, Returns-if)
