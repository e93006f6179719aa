-- ===== src/Prelude/Text.antt =====
-- Go strings as lists of bytes: equality, prefixes, lower case, literals, and cutting at a byte.
use Prim.Native.Nat.{ℕ, ◌+◌}
use Prim.Native.Char.{code}
use Prim.Native.String.{String}
use mathlib.Core.Path.{◌≡◌, refl, subst}
use mathlib.Core.Logic.{◌↔◌, ◌≢◌}
use mathlib.Core.Bool.{Bool, true, false, ◌&&◌}
use mathlib.Core.Option.{Option, none, some}
use mathlib.Core.List.{List, [], ◌∷◌, ◌++◌, map}
use native.Mathlib.Omega.{arith}
use arks.Prelude.Defs.{leb, ◌==◌, if◌then◌else◌}
use arks.Prelude.Defs.{All}

abbrev pub Text : Type 0
Text = List ℕ

-- An ASCII literal.
abbrev pub text : String → Text
text String.[] = []
text (String.◌∷◌ c s) = code c ∷ text s

unfoldable pub text_eq : Text → Text → Bool
text_eq [] [] = true
text_eq [] (b ∷ t) = false
text_eq (a ∷ s) [] = false
text_eq (a ∷ s) (b ∷ t) = a == b && text_eq s t

pub text_eq_refl : (s : Text) → text_eq s s ≡ true
unfolding text_eq
text_eq_refl [] = refl
text_eq_refl (a ∷ s) = ground (arith, text_eq_refl s)

pub eq_of_text_eq : (s t : Text) → text_eq s t ≡ true → s ≡ t
unfolding text_eq
eq_of_text_eq [] [] h = refl
eq_of_text_eq [] (b ∷ t) h = cc
eq_of_text_eq (a ∷ s) [] h = cc
eq_of_text_eq (a ∷ s) (b ∷ t) h = ground (arith, eq_of_text_eq s t)

pub text_eq_iff : (s t : Text) → (text_eq s t ≡ true) ↔ (s ≡ t)
text_eq_iff s t = (eq_of_text_eq s t, λ e. rw e (text_eq_refl t))

-- `strings.TrimPrefix` where `strings.HasPrefix` holds, and `none` where it does not.
unfoldable pub strip_prefix : Text → Text → Option Text
strip_prefix [] s = some s
strip_prefix (p ∷ ps) [] = none
strip_prefix (p ∷ ps) (c ∷ s) = let rest = strip_prefix ps s in if p == c then rest else none

-- What is left after the prefix is what follows it.
pub strip_prefix-eq : (p s t : Text) → strip_prefix p s ≡ some t → s ≡ p ++ t
unfolding strip_prefix
strip_prefix-eq [] s t h = cc
strip_prefix-eq (p ∷ ps) [] t h = cc
strip_prefix-eq (p ∷ ps) (c ∷ s) t h = ground (arith, strip_prefix-eq ps s t)

pub strip_prefix-append : (p t : Text) → strip_prefix p (p ++ t) ≡ some t
unfolding strip_prefix
strip_prefix-append [] t = refl
strip_prefix-append (p ∷ ps) t = ground (arith, strip_prefix-append ps t)

abbrev pub lower : ℕ → ℕ
lower c = if leb b'A' c && leb c b'Z' then c + 32 else c

-- `strings.ToLower` on ASCII text.
abbrev pub to_lower : Text → Text
to_lower = map lower

-- The byte `c` does not stand in the text.
abbrev pub Lacks : ℕ → Text → Type 0
Lacks c = All (λ x. x ≢ c)

-- Where `c` does not stand in `s` or `t`, the first `c` cuts the same text.
pub cut_first :
    (c : ℕ) (s t u v : Text)
    → Lacks c s
    → Lacks c t
    → s ++ (c ∷ u) ≡ t ++ (c ∷ v)
    → (s ≡ t) × (u ≡ v)
cut_first c [] [] u v hs ht e = ground arith
cut_first c [] (b ∷ t) u v hs ht e = absurd (ht.0 (ground arith))
cut_first c (a ∷ s) [] u v hs ht e = absurd (hs.0 (ground arith))
cut_first c (a ∷ s) (b ∷ t) u v hs ht e = ground (arith, cut_first c s t u v hs.1 ht.1)

Lacks-right : (c : ℕ) (s t : Text) → Lacks c (s ++ t) → Lacks c t
Lacks-right c [] t h = h
Lacks-right c (a ∷ s) t h = Lacks-right c s t h.1

-- Where `c` does not stand in `u` or `v`, the last `c` cuts the same text.
pub cut_last :
    (c : ℕ) (s t u v : Text)
    → Lacks c u
    → Lacks c v
    → s ++ (c ∷ u) ≡ t ++ (c ∷ v)
    → (s ≡ t) × (u ≡ v)
cut_last c [] [] u v hu hv e = ground arith
cut_last c [] (b ∷ t) u v hu hv e =
    let e' : u ≡ t ++ (c ∷ v) = ground arith in
    absurd ((Lacks-right c t (c ∷ v) (rw e' at hu)).0 refl)
cut_last c (a ∷ s) [] u v hu hv e =
    let e' : v ≡ s ++ (c ∷ u) = ground arith in
    absurd ((Lacks-right c s (c ∷ u) (rw e' at hv)).0 refl)
cut_last c (a ∷ s) (b ∷ t) u v hu hv e = ground (arith, cut_last c s t u v hu hv)

-- A Go result with an error; the error is its message.
pub data Result {ℓ} (A : Type ℓ) : Type ℓ where
  ok : A → Result A
  err : Text → Result A

pub text_eq-ne : (s t : Text) → s ≢ t → text_eq s t ≡ false
text_eq-ne s t h = ground (arith, eq_of_text_eq s t)

-- A text that differs from another one does not equal what that one equals.
pub text_eq-differ : (s t u : Text) → text_eq s t ≡ false → text_eq s u ≡ true → text_eq t u ≡ false
text_eq-differ s t u h e = text_eq-ne t u (λ p. cc (subst (λ x. text_eq s x ≡ false) p h, e))
