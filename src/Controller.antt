-- ===== src/Controller.antt =====
-- The steps of a reconciliation (internal/controller): a step has the object and the cluster as its
-- state, and goes on with a value, returns to controller-runtime, or panics.
pub mod Hoare
use arks.Prelude.{none, some, if◌then◌else◌, Option}
use arks.ArksModel.Kube.{ApiError}
use arks.ArksModel.Steps.{Returned, is_not_found, is_already_exists, no_error}

pub data Outcome (A : Type 0) : Type 0 where
  goes_on : A → Outcome A
  returns : Returned → Outcome A
  panics : Outcome A

-- What controller-runtime gets, where the code does not panic.
abbrev pub returned : Outcome (Unit {0}) → Option Returned
returned (goes_on _) = some no_error
returned (returns r) = some r
returned panics = none

abbrev pub Action : Type 0 → Type 0 → Type 0
Action S A = S → Outcome A × S

module _ {S : Type 0} where
  abbrev pub pure : {A : Type 0} → A → Action S A
  pure a s = (goes_on a, s)

  abbrev pub return : {A : Type 0} → Returned → Action S A
  return r s = (returns r, s)

  abbrev pub panic : {A : Type 0} → Action S A
  panic s = (panics, s)

  abbrev pub and_then : {A B : Type 0} → Outcome A → (A → Action S B) → Action S B
  and_then (goes_on a) f s = f a s
  and_then (returns r) f s = (returns r, s)
  and_then panics f s = (panics, s)

infixl 5 ◌>>=◌ ◌>>◌
abbrev pub ◌>>=◌ : {S A B : Type 0} → Action S A → (A → Action S B) → Action S B
(m >>= f) s = let (o, s') = m s in and_then o f s'

abbrev pub ◌>>◌ : {S B : Type 0} → Action S (Unit {0}) → Action S B → Action S B
m >> k = m >>= λ _. k

-- The object in memory and the cluster.
abbrev pub call : {X W A : Type 0} → (W → A × W) → Action (X × W) A
call f (x, w) = let (a, w') = f w in (goes_on a, (x, w'))

abbrev pub ask : {X W A : Type 0} → (W → A) → Action (X × W) A
ask f (x, w) = (goes_on (f w), (x, w))

abbrev pub object : {X W : Type 0} → Action (X × W) X
object (x, w) = (goes_on x, (x, w))

abbrev pub change : {X W : Type 0} → (X → X) → Action (X × W) (Unit {0})
change f (x, w) = (goes_on tt, (f x, w))

-- A deletion that finds nothing is as good as one that succeeds, and so is the creation of what
-- exists already; any other error returns.
abbrev pub unless_not_found :
    {S : Type 0} → Option ApiError → (ApiError → Returned) → Action S (Unit {0})
unless_not_found none r = pure tt
unless_not_found (some e) r = if is_not_found e.kind then pure tt else return (r e)

abbrev pub unless_exists :
    {S : Type 0} → Option ApiError → (ApiError → Action S (Unit {0})) → Action S (Unit {0})
unless_exists none f = pure tt
unless_exists (some e) f = if is_already_exists e.kind then pure tt else f e
