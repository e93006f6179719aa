-- ===== src/Controller/Hoare.antt =====
-- What holds after the steps of a reconciliation.
use arks.ArksModel.Steps.{Returned}
use arks.Controller.{Outcome, Action, ◌>>=◌, goes_on, returns, and_then, panics}
use arks.Prelude.{refl, ◌≡◌}

-- `P` of the value and the state where the step goes on, `R` of the state where it returns. A panic
-- leaves nothing to say.
abbrev pub Post :
    {S A : Type 0} → (A → S → Type 0) → (Returned → S → Type 0) → Outcome A × S → Type 0
Post P R (goes_on a, s) = P a s
Post P R (returns r, s) = R r s
Post P R (panics, s) = Unit

Post-of :
    {S A B : Type 0} (P : A → S → Type 0) (Q : B → S → Type 0) (R : Returned → S → Type 0)
    (f : A → Action S B) (o : Outcome A × S)
    → Post P R o
    → ((a : A) (t : S) → P a t → Post Q R (f a t))
    → Post Q R (and_then o.0 f o.1)
Post-of P Q R f (goes_on a, s) h k = k a s h
Post-of P Q R f (returns r, s) h k = h
Post-of P Q R f (panics, s) h k = tt

-- From what holds after a first step to what holds after a second one.
pub Post-and_then :
    {S A B : Type 0} (P : A → S → Type 0) (Q : B → S → Type 0) (R : Returned → S → Type 0)
    (m : Action S A) (f : A → Action S B) (s : S)
    → Post P R (m s)
    → ((a : A) (t : S) → P a t → Post Q R (f a t))
    → Post Q R ((m >>= f) s)
Post-and_then P Q R m f s h k = Post-of P Q R f (m s) h k

-- The same, where there is no panic.
abbrev pub Total :
    {S A : Type 0} → (A → S → Type 0) → (Returned → S → Type 0) → Outcome A × S → Type 0
Total P R (goes_on a, s) = P a s
Total P R (returns r, s) = R r s
Total P R (panics, s) = ⊥

Total-of :
    {S A B : Type 0} (P : A → S → Type 0) (Q : B → S → Type 0) (R : Returned → S → Type 0)
    (f : A → Action S B) (o : Outcome A × S)
    → Total P R o
    → ((a : A) (t : S) → P a t → Total Q R (f a t))
    → Total Q R (and_then o.0 f o.1)
Total-of P Q R f (goes_on a, s) h k = k a s h
Total-of P Q R f (returns r, s) h k = h
Total-of P Q R f (panics, s) h k = absurd h

pub Total-and_then :
    {S A B : Type 0} (P : A → S → Type 0) (Q : B → S → Type 0) (R : Returned → S → Type 0)
    (m : Action S A) (f : A → Action S B) (s : S)
    → Total P R (m s)
    → ((a : A) (t : S) → P a t → Total Q R (f a t))
    → Total Q R ((m >>= f) s)
Total-and_then P Q R m f s h k = Total-of P Q R f (m s) h k

pub Total-goes_on :
    {S A : Type 0} (P : A → S → Type 0) (o : Outcome A × S)
    → Total P (λ _ _. ⊥) o
    → (a : A) × (s : S) × (o ≡ (goes_on a, s)) × P a s
Total-goes_on P (goes_on a, s) h = (a, s, refl, h)
Total-goes_on P (returns r, s) h = absurd h
Total-goes_on P (panics, s) h = absurd h

pub Total-returns :
    {S A : Type 0} (R : Returned → S → Type 0) (o : Outcome A × S)
    → Total (λ _ _. ⊥) R o
    → (r : Returned) × (s : S) × (o ≡ (returns r, s)) × R r s
Total-returns R (goes_on a, s) h = absurd h
Total-returns R (returns r, s) h = (r, s, refl, h)
Total-returns R (panics, s) h = absurd h
