-- ===== src/Session/Runs.antt =====
-- The events that an action adds, as one list: a predicate on actions for properties of the order.
use yyou.Common.{
  ◌≡◌, refl, sym, ap, ◌∙◌, Bool, true, false, List, [], ◌∷◌, ◌++◌, Option, none, some, All,
  append_assoc, append-nil, if◌then◌else◌,
}
use yyou.Session.{
  Outcome, ok, raised, Event, sent, World, Action, pure, and_then, ◌>>=◌, attempt, from_option,
  when_some, send,
}
use yyou.Session.Trace.{Adds}
use yyou.Session.Total.{Returns}

module _ {R : Type 0} where
  -- Whatever has happened before, the events that the action adds satisfy `P` together.
  pub record Leaves {ℓ} {A : Type ℓ} (P : List (Event R) → Type 0) (m : Action R A) : Type 0 where
    pub left : (h : List (Event R)) → (es : List (Event R)) × ((m h).1 ≡ h ++ es) × P es

  pub Leaves-pure {ℓ} :
      {A : Type ℓ} {P : List (Event R) → Type 0} (a : A) → P [] → Leaves P (pure a)
  unfolding pure
  Leaves-pure a p = record { left = λ h. ([], sym (append-nil h), p) }

  pub Leaves-Adds {ℓ} :
      {A : Type ℓ} (P : Event R → Type 0) (m : Action R A) → Adds P m → Leaves (All P) m
  Leaves-Adds P m a = record { left = a.added }

  and_then-left {ℓ κ} :
      {A : Type ℓ} {B : Type κ} {Q : List (Event R) → Type 0} (r : Outcome A) (f : A → Action R B)
      → Q []
      → ((a : A) → Leaves Q (f a))
      → (h : List (Event R)) → (es : List (Event R)) × ((and_then r f h).1 ≡ h ++ es) × Q es
  and_then-left (ok a) f q k h = (k a).left h
  and_then-left raised f q k h = ([], sym (append-nil h), q)

  -- One action after the other, where the second may be cut off.
  pub Leaves-bind {ℓ κ} :
      {A : Type ℓ} {B : Type κ} {P Q S : List (Event R) → Type 0} {m : Action R A}
      {f : A → Action R B}
      → ((xs ys : List (Event R)) → P xs → Q ys → S (xs ++ ys))
      → Q []
      → Leaves P m
      → ((a : A) → Leaves Q (f a))
      → Leaves S (m >>= f)
  unfolding ◌>>=◌
  Leaves-bind {m} {f} join q hm hf = record {
    left = λ h.
        let (xs, e, p) = hm.left h in
        let (ys, g, r) = and_then-left (m h).0 f q hf (m h).1 in
        (xs ++ ys, g ∙ ap (λ t. t ++ ys) e ∙ append_assoc h xs ys, join xs ys p r);
  }

  -- One action after the other, where the first never raises.
  pub Leaves-bind_total {ℓ κ} :
      {A : Type ℓ} {B : Type κ} {P Q S : List (Event R) → Type 0} {m : Action R A}
      {f : A → Action R B}
      → ((xs ys : List (Event R)) → P xs → Q ys → S (xs ++ ys))
      → Returns m
      → Leaves P m
      → ((a : A) → Leaves Q (f a))
      → Leaves S (m >>= f)
  unfolding ◌>>=◌
  Leaves-bind_total {m} {f} join hr hm hf = record {
    left = λ h.
        let (a, g, e) = hr.returned h in
        let (xs, i, p) = hm.left h in
        let (ys, j, q) = (hf a).left g in
        let before : g ≡ h ++ xs = ap (λ r. r.1) (sym e) ∙ i in
        (
          xs ++ ys,
          ap (λ r. (and_then r.0 f r.1).1) e ∙ j ∙ ap (λ t. t ++ ys) before ∙ append_assoc h xs ys,
          join xs ys p q,
        );
  }

  pub Leaves-attempt {ℓ} :
      {A : Type ℓ} {P : List (Event R) → Type 0} {m : Action R A} (d : A)
      → Leaves P m
      → Leaves P (attempt m d)
  unfolding attempt
  Leaves-attempt d hm = record { left = hm.left }

  pub Leaves-from_option {ℓ} :
      {A : Type ℓ} (o : Option A) → Leaves (λ es. es ≡ []) (from_option {R = R} o)
  unfolding from_option
  Leaves-from_option none = record { left = λ h. ([], sym (append-nil h), refl) }
  Leaves-from_option (some a) = record { left = λ h. ([], sym (append-nil h), refl) }

  pub Leaves-when_some {ℓ κ} :
      {A : Type ℓ} {B : Type κ} {P : List (Event R) → Type 0} (o : Option A) {d : Action R B}
      {f : A → Action R B}
      → Leaves P d
      → ((a : A) → Leaves P (f a))
      → Leaves P (when_some o d f)
  unfolding when_some
  Leaves-when_some none hd hf = hd
  Leaves-when_some (some a) hd hf = hf a

  pub Leaves-if {ℓ} :
      {A : Type ℓ} {P : List (Event R) → Type 0} (b : Bool) {m n : Action R A}
      → Leaves P m
      → Leaves P n
      → Leaves P (if b then m else n)
  Leaves-if true hm hn = hm
  Leaves-if false hm hn = hn

  pub Leaves-send :
      {B : Type 0} (w : World R B) (r : R) → Leaves (λ es. es ≡ sent r ∷ []) (send w r)
  unfolding send
  Leaves-send w r = record { left = λ h. (sent r ∷ [], refl, refl) }
