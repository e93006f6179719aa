-- ===== src/Prelude/Decimal.antt =====
-- Go's `strconv.FormatInt(z, 10)` and the value that `strconv.ParseInt(s, 10, 64)` returns.
use arks.Prelude.Defs.{
  ℕ, zero, suc, ◌+◌, ◌-◌, ◌*◌, ◌/◌, ◌%◌, ◌^◌, ◌≤◌, ◌<◌, ◌≡◌, refl, sym, ◌∙◌, ◌&&◌, ◌≢◌, ◌⊎◌, inl,
  inr, [], ◌∷◌, Bool-cases, arith, ltb, leb, ◌==◌, if◌then◌else◌,
}
use arks.Prelude.Int.{ℤ, pos, negsuc, ◌≤ℤ◌}
use arks.Prelude.Text.{Text, Lacks}

-- The digits of `n` before `rest`; the first argument is fuel, and `suc n` is enough.
digits : ℕ → ℕ → Text → Text
digits zero n rest = rest
digits (suc f) n rest =
    let more = digits f (n / 10) ((48 + n % 10) ∷ rest) in
    if ltb n 10 then (48 + n) ∷ rest else more

unfoldable pub format_int : ℤ → Text
unfolding digits
format_int (pos n) = digits (suc n) n []
format_int (negsuc n) = b'-' ∷ digits (suc (suc n)) (suc n) []

-- What `ParseUint` ends with: a value, or one of its two errors.
pub data Parsed : Type 0 where
  value : ℕ → Parsed
  syntax range : Parsed

-- The loop of `ParseUint`, from the value read so far. It stops at the first overflow.
parse_digits : ℕ → Text → Parsed
parse_digits n [] = value n
parse_digits n (c ∷ s) =
    let n1 = n * 10 + (c - 48) in
    let rest = parse_digits n1 s in
    if leb 48 c && leb c 57 then (if leb (2 ^ 64) n1 then range else rest) else syntax

parse_uint : Text → Parsed
unfolding parse_digits
parse_uint [] = syntax
parse_uint (c ∷ s) = parse_digits 0 (c ∷ s)

-- `ParseInt` clamps to the ends of int64 on a range error, and gives 0 on a syntax error.
abbrev unsigned_value : Parsed → ℤ
unsigned_value (value n) = if leb (2 ^ 63) n then pos (2 ^ 63 - 1) else pos n
unsigned_value syntax = pos 0
unsigned_value range = pos (2 ^ 63 - 1)

abbrev negated_value : Parsed → ℤ
negated_value (value zero) = pos 0
negated_value (value (suc n)) = if ltb (2 ^ 63) (suc n) then negsuc (2 ^ 63 - 1) else negsuc n
negated_value syntax = pos 0
negated_value range = negsuc (2 ^ 63 - 1)

unfoldable pub parse_int : Text → ℤ
unfolding parse_uint
parse_int [] = pos 0
parse_int (c ∷ s) =
    if c == b'-'
    then negated_value (parse_uint s)
    else if c == b'+'
    then unsigned_value (parse_uint s)
    else unsigned_value (parse_uint (c ∷ s))

-- Reading the digits of a number goes on from that number.
parse_digits-digits :
    (f n : ℕ) (rest : Text)
    → n < f
    → n < 2 ^ 64
    → parse_digits 0 (digits f n rest) ≡ parse_digits n rest
unfolding digits parse_digits
parse_digits-digits zero n rest h b = absurd (omega arith)
parse_digits-digits (suc f) n rest h b =
    ground (arith, parse_digits-digits f (n / 10) ((48 + n % 10) ∷ rest))

digits_head :
    (f n : ℕ) (rest : Text)
    → n < f
    → (c : ℕ) × (s : Text) × (digits f n rest ≡ c ∷ s) × (48 ≤ c) × (c ≤ 57)
unfolding digits
digits_head zero n rest h = absurd (omega arith)
digits_head (suc f) n rest h = elim (Bool-cases (ltb n 10)) [
  | inl small ↦ rw small (48 + n, rest, refl, omega arith, ground arith)
  | inr large ↦ rw large (digits_head f (n / 10) ((48 + n % 10) ∷ rest) (ground arith))
]

parse_uint-digits : (f n : ℕ) → n < f → n < 2 ^ 64 → parse_uint (digits f n []) ≡ value n
unfolding parse_uint parse_digits
parse_uint-digits f n h b =
    let (c, s, e, lo, hi) = digits_head f n [] h in
    rw e (ground (arith, e, parse_digits-digits f n [] h b))

format_int-unsigned :
    (f n : ℕ) → n < f → n < 2 ^ 64 → parse_int (digits f n []) ≡ unsigned_value (value n)
unfolding parse_int
format_int-unsigned f n h b =
    let (c, s, e, lo, hi) = digits_head f n [] h in
    rw e (ground (arith, e, parse_uint-digits f n h b))

-- What is printed is read back, for every int64.
pub parse_int-format_int :
    (z : ℤ) → negsuc (2 ^ 63 - 1) ≤ℤ z → z ≤ℤ pos (2 ^ 63 - 1) → parse_int (format_int z) ≡ z
parse_int-format_int (pos n) lo hi =
    unfold format_int in (format_int-unsigned (suc n) n (omega arith) (omega arith) ∙ ground arith)
parse_int-format_int (negsuc n) lo hi =
    unfold format_int parse_int in
    rw (parse_uint-digits (suc (suc n)) (suc n) (omega arith) (omega arith)) (ground arith)

digits-Lacks :
    (c f n : ℕ) (rest : Text) → (c < 48) ⊎ (57 < c) → Lacks c rest → Lacks c (digits f n rest)
unfolding digits
digits-Lacks c zero n rest o h = h
digits-Lacks c (suc f) n rest o h = elim (Bool-cases (ltb n 10)) [
  | inl small ↦ rw small (ground arith, h)
  | inr large ↦ rw large (digits-Lacks c f (n / 10) ((48 + n % 10) ∷ rest) o (ground arith, h))
]

-- A printed number holds digits and at most a minus sign.
pub format_int-Lacks : (c : ℕ) (z : ℤ) → (c < 48) ⊎ (57 < c) → c ≢ b'-' → Lacks c (format_int z)
unfolding format_int
format_int-Lacks c (pos n) o m = digits-Lacks c (suc n) n [] o tt
format_int-Lacks c (negsuc n) o m = (λ e. m (sym e), digits-Lacks c (suc (suc n)) (suc n) [] o tt)

round :
    (parse_int (format_int (pos 1700000040)) ≡ pos 1700000040)
    × (format_int (negsuc 99) ≡ 45 ∷ 49 ∷ 48 ∷ 48 ∷ [])
unfolding parse_int format_int
round = (refl, refl)
