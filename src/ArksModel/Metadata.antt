-- ===== src/ArksModel/Metadata.antt =====
-- internal/controller/arksmodel_controller.go: what the conditions and the finalizers read after a
-- change.
use arks.Prelude.{
  [], ◌||◌, inr, ◌≡◌, ◌∷◌, refl, List, if◌then◌else◌, Bool-cases, inl, false, sym, true, ◌++◌, Bool,
}
use arks.ArksModel.{
  check_condition, has_finalizer, remove_finalizer, Text, add_finalizer, update_condition,
  ArksModelCondition, ConditionStatus, ℤ, is_true,
}
use arks.Prelude.Text.{text_eq, Text, eq_of_text_eq, text_eq-differ}
use mathlib.Core.Path.{subst}
use arks.Prelude.Int.{ℤ}

-- After an update, the type that was updated has the new status, and every other type reads as before:
-- updating adds no second condition of a type that would be read first.
pub check_condition-update :
    (cs : List ArksModelCondition) (type : Text) (status : ConditionStatus) (reason message : Text)
    (now : ℤ) (other : Text)
    → check_condition (update_condition cs type status reason message now) other
      ≡ (if text_eq type other then is_true status else check_condition cs other)
unfolding check_condition update_condition
check_condition-update [] type status reason message now other = refl
check_condition-update (c ∷ rest) type status reason message now other =
    elim (Bool-cases (text_eq c.type type)) [
      | inl e ↦ rw e (
          rw (eq_of_text_eq c.type type e)
            (elim (Bool-cases (text_eq type other)) [ inl f ↦ rw f refl | inr f ↦ rw f refl ]))
      | inr e ↦ rw e (elim (Bool-cases (text_eq c.type other)) [
        | inl f ↦ rw (f, text_eq-differ c.type type other e f) refl
        | inr f ↦ rw f (check_condition-update rest type status reason message now other)
      ])
    ]

-- After a finalizer is removed it is not found, and every other finalizer is found as before.
pub has_finalizer-remove :
    (fs : List Text) (f g : Text)
    → has_finalizer (remove_finalizer fs f) g ≡ (if text_eq f g then false else has_finalizer fs g)
unfolding has_finalizer remove_finalizer
has_finalizer-remove [] f g = elim (Bool-cases (text_eq f g)) [
  | inl e ↦ rw e refl
  | inr e ↦ rw e refl
]
has_finalizer-remove (h ∷ rest) f g = elim (Bool-cases (text_eq h f)) [
  | inl e ↦
      rw (e, eq_of_text_eq h f e)
        (rw (has_finalizer-remove rest f g)
          (elim (Bool-cases (text_eq f g)) [ inl m ↦ rw m refl | inr m ↦ rw m refl ]))
  | inr e ↦ rw e (elim (Bool-cases (text_eq h g)) [
    | inl m ↦ rw (m, text_eq-differ h f g e m) refl
    | inr m ↦ rw m (has_finalizer-remove rest f g)
  ])
]

or_true : (b : Bool) → (b || true) ≡ true
or_true true = refl
or_true false = refl

or_false : (b : Bool) → (if b then true else false) ≡ (b || false)
or_false true = refl
or_false false = refl

has_finalizer-append :
    (fs : List Text) (f g : Text)
    → has_finalizer (fs ++ (f ∷ [])) g ≡ (text_eq f g || has_finalizer fs g)
unfolding has_finalizer
has_finalizer-append [] f g = or_false (text_eq f g)
has_finalizer-append (h ∷ rest) f g = elim (Bool-cases (text_eq h g)) [
  | inl m ↦ rw m (sym (or_true (text_eq f g)))
  | inr m ↦ rw m (has_finalizer-append rest f g)
]

-- After a finalizer is added it is found, and every other finalizer is found as before.
pub has_finalizer-add :
    (fs : List Text) (f g : Text)
    → has_finalizer (add_finalizer fs f) g ≡ (text_eq f g || has_finalizer fs g)
unfolding has_finalizer add_finalizer
has_finalizer-add fs f g = elim (Bool-cases (has_finalizer fs f)) [
  | inr e ↦ rw e (has_finalizer-append fs f g)
  | inl e ↦ rw e (elim (Bool-cases (text_eq f g)) [
    | inl m ↦ rw m (subst (λ x. has_finalizer fs x ≡ true) (eq_of_text_eq f g m) e)
    | inr m ↦ rw m refl
  ])
]
