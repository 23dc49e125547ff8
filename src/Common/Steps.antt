-- ===== src/Common/Steps.antt =====
-- A computation that changes an object and may throw. What it changed before it threw stays.
use mathlib.Core.Path.{◌≡◌, refl, ap, sym, ◌∙◌}
use mathlib.Core.Bool.{Bool, true, false}
use native.Mathlib.Omega.{arith}
use eps2probandltf.Common.Tests.{if◌then◌else◌}
use eps2probandltf.Common.Outcomes.{Result, ok, err, Result-ok-inj}

abbrev pub Step : Type 0 → Type 0 → Type 0
Step S A = S → Result A × S

module _ {S : Type 0} where
  abbrev pub after : {A B : Type 0} → Result A × S → (A → Step S B) → Result B × S
  after (ok a, s) f = f a s
  after (err e, s) f = (err e, s)

  infixl 5 ◌>>=◌
  unfoldable pub ◌>>=◌ : {A B : Type 0} → Step S A → (A → Step S B) → Step S B
  (m >>= f) s = after (m s) f

  unfoldable pub return : {A : Type 0} → A → Step S A
  return a s = (ok a, s)

  -- A computation that does not change the object.
  unfoldable pub lift : {A : Type 0} → Result A → Step S A
  lift r s = (r, s)

  -- A computation that reads the object.
  unfoldable pub reads : {A : Type 0} → (S → A) → Step S A
  reads f s = (ok (f s), s)

  unfoldable pub modify : (S → S) → Step S (Unit {0})
  modify f s = (ok tt, f s)

  -- From `s` the computation returns `a` and leaves `s'`.
  pub record Ends {A : Type 0} (h : Step S A) (s : S) (a : A) (s' : S) : Type 0 where
    pub ended : h s ≡ (ok a, s')

  after-inv :
      {A B : Type 0} (h : Step S A) (f : A → Step S B) (s s' : S) (b : B) (r : Result A × S)
      → h s ≡ r
      → after r f ≡ (ok b, s')
      → (a : A) × (t : S) × Ends h s a t × Ends (f a) t b s'
  after-inv h f s s' b (ok a, t) g e = (a, t, record { ended = g }, record { ended = e })
  after-inv h f s s' b (err u, t) g e = absurd (ground (arith, ap (λ p. p.0) e))

  -- A computation that returns has a first part that does.
  pub >>=-inv :
      {A B : Type 0} {h : Step S A} {f : A → Step S B} {s s' : S} {b : B}
      → Ends (h >>= f) s b s'
      → (a : A) × (t : S) × Ends h s a t × Ends (f a) t b s'
  unfolding ◌>>=◌
  >>=-inv {h = h} {f = f} {s = s} {s' = s'} {b = b} e = after-inv h f s s' b (h s) refl e.ended

  -- The same for the parts that do not change the object, and for a change.
  pub lift-inv :
      {A B : Type 0} {r : Result A} {f : A → Step S B} {s s' : S} {b : B}
      → Ends (lift r >>= f) s b s'
      → (a : A) × (r ≡ ok a) × Ends (f a) s b s'
  unfolding ◌>>=◌ lift
  lift-inv {A = A} {r = r} {f = f} {s = s} {s' = s'} {b = b} e = split r e.ended
    where
      split :
          (r : Result A) → after (r, s) f ≡ (ok b, s') → (a : A) × (r ≡ ok a) × Ends (f a) s b s'
      split (ok a) g = (a, refl, record { ended = g })
      split (err u) g = absurd (ground (arith, ap (λ p. p.0) g))

  -- A last part that does not change the object.
  pub lift-Ends :
      {A : Type 0} {r : Result A} {s s' : S} {a : A} → Ends (lift r) s a s' → (r ≡ ok a) × (s ≡ s')
  unfolding lift
  lift-Ends e = (ap (λ p. p.0) e.ended, ap (λ p. p.1) e.ended)

  reads_at : {A B : Type 0} (g : S → A) (f : A → Step S B) (s : S) → (reads g >>= f) s ≡ f (g s) s
  unfolding ◌>>=◌ reads
  reads_at g f s = refl

  pub reads-inv :
      {A B : Type 0} (g : S → A) (f : A → Step S B) {s s' : S} {b : B}
      → Ends (reads g >>= f) s b s'
      → Ends (f (g s)) s b s'
  reads-inv g f {s = s} e = record { ended = sym (reads_at g f s) ∙ e.ended }

  change_at :
      {B : Type 0} (g : S → S) (f : Unit {0} → Step S B) (s : S) → (modify g >>= f) s ≡ f tt (g s)
  unfolding ◌>>=◌ modify
  change_at g f s = refl

  pub change-inv :
      {B : Type 0} (g : S → S) (f : Unit {0} → Step S B) {s s' : S} {b : B}
      → Ends (modify g >>= f) s b s'
      → Ends (f tt) (g s) b s'
  change-inv g f {s = s} e = record { ended = sym (change_at g f s) ∙ e.ended }

  pub return-inv :
      {A : Type 0} {b : A} {s s' : S} {a : A} → Ends (return b) s a s' → (b ≡ a) × (s ≡ s')
  unfolding return
  return-inv e = (Result-ok-inj (ap (λ p. p.0) e.ended), ap (λ p. p.1) e.ended)

  pub modify-inv : (f : S → S) {s s' : S} {a : Unit {0}} → Ends (modify f) s a s' → f s ≡ s'
  unfolding modify
  modify-inv f e = ap (λ p. p.1) e.ended

  module _ {V : Type 0} (view : S → V) where
    -- What `view` reads is the same after the computation, whether it throws or not.
    pub record Preserves {A : Type 0} (h : Step S A) : Type 0 where
      pub preserved : (s : S) → view (h s).1 ≡ view s

    after-preserved :
        {A B : Type 0} (r : Result A × S) (f : A → Step S B)
        → ((a : A) → Preserves (f a))
        → view (after r f).1 ≡ view r.1
    after-preserved (ok a, s) f k = (k a).preserved s
    after-preserved (err e, s) f k = refl

    pub then-Preserves :
        {A B : Type 0} {h : Step S A} {f : A → Step S B}
        → Preserves h
        → ((a : A) → Preserves (f a))
        → Preserves (h >>= f)
    unfolding ◌>>=◌
    then-Preserves {h = h} {f = f} i k = record {
      preserved = λ s. after-preserved (h s) f k ∙ i.preserved s;
    }

    pub return-Preserves : {A : Type 0} (a : A) → Preserves (return a)
    unfolding return
    return-Preserves a = record { preserved = λ s. refl }

    pub lift-Preserves : {A : Type 0} (r : Result A) → Preserves (lift r)
    unfolding lift
    lift-Preserves r = record { preserved = λ s. refl }

    pub reads-Preserves : {A : Type 0} (f : S → A) → Preserves (reads f)
    unfolding reads
    reads-Preserves f = record { preserved = λ s. refl }

    pub modify-Preserves : (f : S → S) → ((s : S) → view (f s) ≡ view s) → Preserves (modify f)
    unfolding modify
    modify-Preserves f e = record { preserved = e }

    pub if-Preserves :
        {A : Type 0} (b : Bool) {g h : Step S A}
        → Preserves g
        → Preserves h
        → Preserves (if b then g else h)
    if-Preserves true k l = k
    if-Preserves false k l = l

    pub Preserves-Ends :
        {A : Type 0} {h : Step S A} {s s' : S} {a : A}
        → Preserves h
        → Ends h s a s'
        → view s' ≡ view s
    Preserves-Ends {s = s} p e = ap (λ r. view r.1) (sym e.ended) ∙ p.preserved s
