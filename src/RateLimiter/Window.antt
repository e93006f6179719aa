-- ===== src/RateLimiter/Window.antt =====
-- pkg/gateway/ratelimiter/cache_key.go: the time window of a rule and the Redis key of a counter.
use arks.Prelude.{ℕ, ◌+◌, ◌-◌, ◌*◌, ◌/◌, ◌%◌, List, [], ◌∷◌, ◌++◌, leb, if◌then◌else◌}
use arks.Prelude.Int.{ℤ, pos, negsuc, sub_ℕ, mul64}
use arks.Prelude.Text.{Text}
use arks.Prelude.Decimal.{format_int}
use arks.RateLimiter.{LimitRuleConfig, unit_to_seconds, Label, RateLimitRequest}

-- Seconds from Go's zero time, the start of the year 1, to the Unix epoch.
abbrev pub epoch : ℕ
epoch = 62135596800

-- `time.Duration(rule.Period*UnitToSeconds(rule.Unit)) * time.Second`, in nanoseconds.
unfoldable pub window_size : LimitRuleConfig → ℤ
unfolding mul64
window_size rule = mul64 (mul64 rule.period (unit_to_seconds rule.unit)) (pos 1000000000)

-- `Time.Truncate` on the nanoseconds since the zero time.
abbrev pub truncate : ℕ → ℤ → ℕ
truncate t (pos d) = if leb d 0 then t else t - t % d
truncate t (negsuc d) = t

-- The Unix time at which the window of `now` starts.
unfoldable pub get_window_start : ℕ → LimitRuleConfig → ℤ
unfolding window_size
get_window_start now rule =
    sub_ℕ (truncate ((now + epoch) * 1000000000) (window_size rule) / 1000000000) epoch

abbrev pub write_labels : List Label → Text → Text
write_labels [] rest = rest
write_labels (kv ∷ ls) rest = kv.key ++ (b'=' ∷ (kv.value ++ (b'.' ∷ write_labels ls rest)))

-- `CacheKeyGenerator.Generate`, with the generator's prefix for its first argument.
unfoldable pub generate : Text → RateLimitRequest → LimitRuleConfig → ℕ → Text
generate prefix desc rule now =
    prefix
    ++ (b':'
        ∷ write_labels desc.identifier
            (desc.rule_name ++ (b':' ∷ format_int (get_window_start now rule))))
