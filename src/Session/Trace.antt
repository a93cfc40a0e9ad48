-- ===== src/Session/Trace.antt =====
-- Which events an action adds to those before it: a predicate on actions, with a rule for each way of
-- building one.
use yyou.Common.{
  ◌≡◌, refl, sym, ap, ◌∙◌, Bool, true, false, List, [], ◌∷◌, ◌++◌, Option, none, some, All,
  All-append, append_assoc, append-nil, if◌then◌else◌,
}
use yyou.Session.{
  Outcome, ok, raised, World, Event, sent, read_clock, Action, pure, fault, and_then, ◌>>=◌,
  attempt, guard, from_option, when_some, send, utcnow,
}

module _ {R : Type 0} (P : Event R → Type 0) where
  -- Whatever has happened before, the action only adds events that satisfy `P`.
  pub record Adds {ℓ} {A : Type ℓ} (m : Action R A) : Type 0 where
    pub added : (h : List (Event R)) → (es : List (Event R)) × ((m h).1 ≡ h ++ es) × All P es

module _ {R : Type 0} {P : Event R → Type 0} where
  abbrev nothing {ℓ} :
      {A : Type ℓ} (r : Outcome A) (h : List (Event R))
      → (es : List (Event R)) × (h ≡ h ++ es) × All P es
  nothing r h = ([], sym (append-nil h), tt)

  pub Adds-pure {ℓ} : {A : Type ℓ} (a : A) → Adds P (pure {R = R} a)
  unfolding pure
  Adds-pure a = record { added = λ h. nothing (ok a) h }

  pub Adds-fault {ℓ} : {A : Type ℓ} → Adds P (fault {R = R} {A = A})
  unfolding fault
  Adds-fault {A} = record { added = λ h. nothing {A = A} raised h }

  and_then-added {ℓ κ} :
      {A : Type ℓ} {B : Type κ} (r : Outcome A) (f : A → Action R B)
      → ((a : A) → Adds P (f a))
      → (h : List (Event R)) → (es : List (Event R)) × ((and_then r f h).1 ≡ h ++ es) × All P es
  and_then-added (ok a) f k h = (k a).added h
  and_then-added {B} raised f k h = nothing {A = B} raised h

  pub Adds-bind {ℓ κ} :
      {A : Type ℓ} {B : Type κ} {m : Action R A} {f : A → Action R B}
      → Adds P m
      → ((a : A) → Adds P (f a))
      → Adds P (m >>= f)
  unfolding ◌>>=◌
  Adds-bind {m} {f} hm hf = record {
    added = λ h.
        let (es, e, a) = hm.added h in
        let (fs, g, b) = and_then-added (m h).0 f hf (m h).1 in
        (es ++ fs, g ∙ ap (λ t. t ++ fs) e ∙ append_assoc h es fs, All-append P es fs a b);
  }

  -- The second step is only looked at for the values that the first one can return.
  pub Adds-bind_returned {ℓ κ} :
      {A : Type ℓ} {B : Type κ} (Q : A → Type 0) (m : Action R A) (f : A → Action R B)
      → Adds P m
      → ((h : List (Event R)) (a : A) → (m h).0 ≡ ok a → Q a)
      → ((a : A) → Q a → Adds P (f a))
      → Adds P (m >>= f)
  unfolding ◌>>=◌
  Adds-bind_returned {A} {B} Q m f hm q hf = record {
    added = λ h.
        let (es, e, a) = hm.added h in
        let (fs, g, b) = second (m h).0 (λ a x. hf a (q h a x)) (m h).1 in
        (es ++ fs, g ∙ ap (λ t. t ++ fs) e ∙ append_assoc h es fs, All-append P es fs a b);
  }
    where
      second :
          (r : Outcome A)
          → ((a : A) → r ≡ ok a → Adds P (f a))
          → (h : List (Event R)) → (es : List (Event R)) × ((and_then r f h).1 ≡ h ++ es) × All P es
      second (ok a) k h = (k a refl).added h
      second raised k h = nothing {A = B} raised h

  pub Adds-attempt {ℓ} : {A : Type ℓ} {m : Action R A} (d : A) → Adds P m → Adds P (attempt m d)
  unfolding attempt
  Adds-attempt d hm = record { added = hm.added }

  pub Adds-guard : (b : Bool) → Adds P (guard {R = R} b)
  unfolding guard
  Adds-guard true = record { added = λ h. nothing {0} {A = Unit {0}} (ok tt) h }
  Adds-guard false = record { added = λ h. nothing {0} {A = Unit {0}} raised h }

  pub Adds-from_option {ℓ} : {A : Type ℓ} (o : Option A) → Adds P (from_option {R = R} o)
  unfolding from_option
  Adds-from_option {A} none = record { added = λ h. nothing {A = A} raised h }
  Adds-from_option (some a) = record { added = λ h. nothing (ok a) h }

  pub Adds-when_some {ℓ κ} :
      {A : Type ℓ} {B : Type κ} (o : Option A) {d : Action R B} {f : A → Action R B}
      → Adds P d
      → ((a : A) → Adds P (f a))
      → Adds P (when_some o d f)
  unfolding when_some
  Adds-when_some none hd hf = hd
  Adds-when_some (some a) hd hf = hf a

  pub Adds-if {ℓ} :
      {A : Type ℓ} (b : Bool) {m n : Action R A} → Adds P m → Adds P n → Adds P (if b then m else n)
  Adds-if true hm hn = hm
  Adds-if false hm hn = hn

  pub Adds-send : {B : Type 0} (w : World R B) (r : R) → P (sent r) → Adds P (send w r)
  unfolding send
  Adds-send w r p = record { added = λ h. (sent r ∷ [], refl, (p, tt)) }

  pub Adds-utcnow : {B : Type 0} (w : World R B) → P read_clock → Adds P (utcnow w)
  unfolding utcnow
  Adds-utcnow w p = record { added = λ h. (read_clock ∷ [], refl, (p, tt)) }

-- An action that only adds some events only adds events of a wider kind.
pub Adds-mono {ℓ} :
    {R : Type 0} {A : Type ℓ} (P Q : Event R → Type 0) (m : Action R A)
    → ((e : Event R) → P e → Q e)
    → Adds P m
    → Adds Q m
Adds-mono {R} P Q m wider a = record {
  added = λ h. let (es, e, all) = a.added h in (es, e, weaken es all);
}
  where
    weaken : (es : List (Event R)) → All P es → All Q es
    weaken [] x = tt
    weaken (e ∷ es) (p, x) = (wider e p, weaken es x)

pub ruleset trace = (
  Adds-pure, Adds-fault, Adds-bind, Adds-attempt, Adds-guard, Adds-from_option, Adds-when_some,
  Adds-if, Adds-send, Adds-utcnow,
)
