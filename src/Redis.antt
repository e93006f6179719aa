-- ===== src/Redis.antt =====
-- The Redis client (github.com/redis/go-redis/v9) as the gateway uses it: a parameter of the model.
-- `RedisLaws` states what Redis documents of the commands, on a reachable server.
pub mod Counters
pub mod Pipelines
use arks.Prelude.{
  ℕ, zero, suc, ◌+◌, ◌^◌, ◌<◌, ◌≡◌, Bool, true, List, [], ◌∷◌, Option, none, some, if◌then◌else◌,
}
use arks.Prelude.Int.{ℤ, pos}
use arks.Prelude.Text.{Text, text_eq}
use arks.Prelude.Decimal.{format_int, parse_int}

-- `expire` takes nanoseconds, as `time.Duration` does.
pub data Command : Type 0 where
  get : Text → Command
  ttl : Text → Command
  incr_by : Text → ℤ → Command
  set : Text → ℤ → Command
  expire : Text → ℤ → Command

-- `redis.Nil`, and any other error with its message.
pub data RedisError : Type 0 where
  nil : RedisError
  failed : Text → RedisError

-- What a `Cmd` holds after `Exec`: a text, a duration in nanoseconds, nothing more, or an error.
pub data Reply : Type 0 where
  value : Text → Reply
  duration : ℤ → Reply
  done : Reply
  error : RedisError → Reply

-- The result of `Exec`: its error, and what the `Cmd` of the n-th command holds.
pub record Executed (Store : Type 0) : Type 0 where
  pub err : Option RedisError
  pub replies : ℕ → Reply
  pub store : Store

pub record Redis : Type 1 where
  pub Store : Type 0
  pub exec : List Command → Store → Executed Store
  pub ttl_now : Text → Store → Reply × Store

-- `reply` and `after` say what one command answers and does on a reachable server, `read` gives the
-- text under a key.
pub record RedisView (r : Redis) : Type 1 where
  pub Reachable : r.Store → Type 0
  pub reply : Command → r.Store → Reply
  pub after : Command → r.Store → r.Store
  pub read : r.Store → Text → Option Text

abbrev pub error_of : Reply → Option RedisError
error_of (error e) = some e
error_of _ = none

abbrev pub or_else : Option RedisError → Option RedisError → Option RedisError
or_else none b = b
or_else (some e) b = some e

-- The number that a text under a key stands for, 0 where there is none.
abbrev pub number_of : Option Text → ℤ
number_of none = pos 0
number_of (some t) = parse_int t

-- The key holds the number `c`: it has no text, which counts as 0, or the text that Redis keeps for `c`.
abbrev pub Holds : Option Text → ℕ → Type 0
Holds none c = c ≡ 0
Holds (some t) c = t ≡ format_int (pos c)

abbrev pub get_reply : Option Text → Reply
get_reply none = error nil
get_reply (some t) = value t

-- The commands of a pipeline run in order, and each has its reply; `Exec` gives the first error.
module _ {r : Redis} (v : RedisView r) where
  abbrev pub after_all : List Command → r.Store → r.Store
  after_all [] s = s
  after_all (c ∷ cs) s = after_all cs (v.after c s)

  abbrev pub reply_at : List Command → r.Store → ℕ → Reply
  reply_at [] s n = done
  reply_at (c ∷ cs) s zero = v.reply c s
  reply_at (c ∷ cs) s (suc n) = reply_at cs (v.after c s) n

  abbrev pub first_error : List Command → r.Store → Option RedisError
  first_error [] s = none
  first_error (c ∷ cs) s = or_else (error_of (v.reply c s)) (first_error cs (v.after c s))

  abbrev pub count : r.Store → Text → ℤ
  count s k = number_of (v.read s k)

-- What Redis documents of the commands that the gateway sends.
pub record RedisLaws {r : Redis} (v : RedisView r) : Type 1 where
  pub exec_store :
      (cs : List Command) (s : r.Store) → v.Reachable s → (r.exec cs s).store ≡ after_all v cs s
  pub exec_err :
      (cs : List Command) (s : r.Store) → v.Reachable s → (r.exec cs s).err ≡ first_error v cs s
  pub exec_replies :
      (cs : List Command) (s : r.Store) (n : ℕ)
      → v.Reachable s
      → (r.exec cs s).replies n ≡ reply_at v cs s n
  pub after-Reachable : (c : Command) (s : r.Store) → v.Reachable s → v.Reachable (v.after c s)
  pub reply-get : (k : Text) (s : r.Store) → v.reply (get k) s ≡ get_reply (v.read s k)
  pub read-get : (k j : Text) (s : r.Store) → v.read (v.after (get k) s) j ≡ v.read s j
  pub reply-ttl : (k : Text) (s : r.Store) → (d : ℤ) × (v.reply (ttl k) s ≡ duration d)
  pub read-ttl : (k j : Text) (s : r.Store) → v.read (v.after (ttl k) s) j ≡ v.read s j
  pub ttl_now-reply :
      (k : Text) (s : r.Store) → v.Reachable s → (d : ℤ) × ((r.ttl_now k s).0 ≡ duration d)
  pub ttl_now-Reachable : (k : Text) (s : r.Store) → v.Reachable s → v.Reachable (r.ttl_now k s).1
  pub read-ttl_now : (k j : Text) (s : r.Store) → v.read (r.ttl_now k s).1 j ≡ v.read s j
  pub reply-incr_by :
      (k : Text) (c n : ℕ) (s : r.Store)
      → Holds (v.read s k) c
      → c + n < 2 ^ 63
      → v.reply (incr_by k (pos n)) s ≡ done
  pub read-incr_by :
      (k j : Text) (c n : ℕ) (s : r.Store)
      → Holds (v.read s k) c
      → c + n < 2 ^ 63
      → v.read (v.after (incr_by k (pos n)) s) j
        ≡ (if text_eq k j then some (format_int (pos (c + n))) else v.read s j)
  pub reply-set : (k : Text) (n : ℤ) (s : r.Store) → v.reply (set k n) s ≡ done
  pub read-set :
      (k j : Text) (n : ℤ) (s : r.Store)
      → v.read (v.after (set k n) s) j ≡ (if text_eq k j then some (format_int n) else v.read s j)
  pub reply-expire : (k : Text) (d : ℤ) (s : r.Store) → v.reply (expire k d) s ≡ done
  pub read-expire :
      (k j : Text) (d : ℕ) (s : r.Store)
      → 0 < d
      → v.read (v.after (expire k (pos d)) s) j ≡ v.read s j
