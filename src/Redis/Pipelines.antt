-- ===== src/Redis/Pipelines.antt =====
-- Pipelines of increments: what they add to every counter.
use arks.Prelude.{
  ℕ, none, ◌+◌, inl, ap, [], if◌then◌else◌, arith, ◌∷◌, Bool-cases, inr, ◌^◌, refl, ◌<◌, ◌≤◌, ◌≡◌,
  List,
}
use arks.Redis.Counters.{incr_by-Holds}
use mathlib.Core.Path.{subst}
use native.Mathlib.Nat.{add-zero}
use arks.Prelude.Text.{Text, text_eq, eq_of_text_eq}
use arks.Redis.{
  Redis, RedisView, RedisLaws, Command, expire, Holds, incr_by, pos, first_error, after_all,
}
use arks.Prelude.Int.{pos}

counters_after : (k : Text) (a : ℕ) (f : Text → ℕ) (j : Text) → ℕ
counters_after k a f j = if text_eq k j then f k + a else f j

counters_after-eq :
    (k : Text) (a : ℕ) (f : Text → ℕ) (j : Text)
    → counters_after k a f j ≡ f j + (if text_eq k j then a else 0)
unfolding counters_after
counters_after-eq k a f j = elim (Bool-cases (text_eq k j)) [
  | inl hit ↦ rw hit (ap (λ i. f i + a) (eq_of_text_eq k j hit))
  | inr miss ↦ rw miss (omega arith)
]

module _ {r : Redis} {v : RedisView r} (l : RedisLaws v) where
  -- Run from counters `f`, the commands end in no error and add `w`; `w` is at most `bound` anywhere.
  abbrev pub Adds : List Command → (Text → ℕ) → ℕ → Type 0
  Adds cs w bound =
      (s : r.Store) (f : Text → ℕ)
      → ((j : Text) → Holds (v.read s j) (f j))
      → ((j : Text) → f j + bound < 2 ^ 63)
      → (first_error v cs s ≡ none) × ((j : Text) → Holds (v.read (after_all v cs s) j) (f j + w j))

  pub Adds-nil : Adds [] (λ j. 0) 0
  Adds-nil s f h b = (refl, λ j. rw (add-zero (f j)) (h j))

  pub Adds-conv :
      (cs : List Command) (w w' : Text → ℕ) (bound bound' : ℕ)
      → ((j : Text) → w j ≡ w' j)
      → bound ≤ bound'
      → Adds cs w bound
      → Adds cs w' bound'
  Adds-conv cs w w' bound bound' e le more s f h b =
      let (fine, added) = more s f h (λ j. omega (arith, b j)) in (fine, λ j. rw (← e j) (added j))

  pub Adds-incr_by :
      (k : Text) (a : ℕ) (cs : List Command) (w : Text → ℕ) (bound : ℕ)
      → Adds cs w bound
      → Adds (incr_by k (pos a) ∷ cs) (λ j. (if text_eq k j then a else 0) + w j) (a + bound)
  Adds-incr_by k a cs w bound more s f h b =
      let s' = v.after (incr_by k (pos a)) s in
      let held : (j : Text) → Holds (v.read s' j) (counters_after k a f j) = λ j.
        unfold counters_after in
        incr_by-Holds l k j (f k) a (f j) s (h k) (h j) (omega (arith, b k)) in
      let (fine, added) =
        more s' (counters_after k a f) held (λ j. ground (arith, counters_after-eq k a f j, b j)) in
      (
        rw (l.reply-incr_by k (f k) a s (h k) (omega (arith, b k))) fine,
        λ j.
            subst (Holds (v.read (after_all v cs s') j)) (omega (arith, counters_after-eq k a f j))
              (added j),
      )

  pub Adds-expire :
      (k : Text) (d : ℕ) (cs : List Command) (w : Text → ℕ) (bound : ℕ)
      → 0 < d
      → Adds cs w bound
      → Adds (expire k (pos d) ∷ cs) w bound
  Adds-expire k d cs w bound later more s f h b =
      let s' = v.after (expire k (pos d)) s in
      let (fine, added) = more s' f (λ j. rw (l.read-expire k j d s later) (h j)) b in
      (rw (l.reply-expire k (pos d) s) fine, added)
