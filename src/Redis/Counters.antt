-- ===== src/Redis/Counters.antt =====
-- What the laws of Redis give for counters, and a store that satisfies them.
use arks.Prelude.{
  ℕ, zero, suc, ◌+◌, ◌^◌, ◌<◌, ◌≡◌, refl, sym, ap, Bool, true, false, List, [], ◌∷◌, Option, none,
  some, if◌then◌else◌, arith,
}
use arks.Prelude.Int.{pos, negsuc, add64, add64-pos}
use arks.Prelude.Text.{Text, text_eq}
use arks.Prelude.Decimal.{format_int, parse_int-format_int}
use arks.Redis.{
  Command, get, ttl, incr_by, set, expire, Reply, duration, done, Redis, RedisView, RedisLaws,
  number_of, get_reply, after_all, reply_at, first_error, Holds, or_else, RedisError, error_of,
}

pub number_of-Holds : (o : Option Text) (c : ℕ) → Holds o c → c < 2 ^ 63 → number_of o ≡ pos c
number_of-Holds none c h b = ap pos (sym h)
number_of-Holds (some t) c h b = rw h (parse_int-format_int (pos c) (omega arith) (omega arith))

Holds-written :
    (o : Option Text) (t : Text) (hit : Bool) (c n : ℕ)
    → Holds o n
    → t ≡ format_int (pos c)
    → Holds (if hit then some t else o) (if hit then c else n)
Holds-written o t true c n h e = e
Holds-written o t false c n h e = h

module _ {r : Redis} {v : RedisView r} (l : RedisLaws v) where
  -- An increment adds to its own counter, and leaves the others.
  pub incr_by-Holds :
      (k j : Text) (c n m : ℕ) (s : r.Store)
      → Holds (v.read s k) c
      → Holds (v.read s j) m
      → c + n < 2 ^ 63
      → Holds (v.read (v.after (incr_by k (pos n)) s) j) (if text_eq k j then c + n else m)
  incr_by-Holds k j c n m s hk hj b =
      rw (l.read-incr_by k j c n s hk b)
        (Holds-written (v.read s j) (format_int (pos (c + n))) (text_eq k j) (c + n) m hj refl)

-- A store in memory that is always reachable: a function from keys to texts, in which no key expires.
abbrev Memory : Type 0
Memory = Text → Option Text

abbrev write : Memory → Text → Text → Memory
write m k t j = if text_eq k j then some t else m j

abbrev memory_after : Command → Memory → Memory
memory_after (get k) m = m
memory_after (ttl k) m = m
memory_after (incr_by k n) m = write m k (format_int (add64 (number_of (m k)) n))
memory_after (set k n) m = write m k (format_int n)
memory_after (expire k d) m = m

abbrev memory_reply : Command → Memory → Reply
memory_reply (get k) m = get_reply (m k)
memory_reply (ttl k) m = duration (negsuc 0)
memory_reply (incr_by k n) m = done
memory_reply (set k n) m = done
memory_reply (expire k d) m = done

abbrev memory_after_all : List Command → Memory → Memory
memory_after_all [] m = m
memory_after_all (c ∷ cs) m = memory_after_all cs (memory_after c m)

abbrev memory_reply_at : List Command → Memory → ℕ → Reply
memory_reply_at [] m n = done
memory_reply_at (c ∷ cs) m zero = memory_reply c m
memory_reply_at (c ∷ cs) m (suc n) = memory_reply_at cs (memory_after c m) n

abbrev memory_first_error : List Command → Memory → Option RedisError
memory_first_error [] m = none
memory_first_error (c ∷ cs) m =
    or_else (error_of (memory_reply c m)) (memory_first_error cs (memory_after c m))

abbrev pub memory : Redis
memory = record {
  Store = Memory;
  exec = λ cs m. record {
    err = memory_first_error cs m;
    replies = memory_reply_at cs m;
    store = memory_after_all cs m;
  };
  ttl_now = λ k m. (duration (negsuc 0), m);
}

abbrev pub memory_view : RedisView memory
memory_view = record {
  Reachable = λ m. Unit {0};
  reply = memory_reply;
  after = memory_after;
  read = λ m k. m k;
}

memory_exec_store :
    (cs : List Command) (m : Memory) → memory_after_all cs m ≡ after_all memory_view cs m
memory_exec_store [] m = refl
memory_exec_store (c ∷ cs) m = memory_exec_store cs (memory_after c m)

memory_exec_err :
    (cs : List Command) (m : Memory) → memory_first_error cs m ≡ first_error memory_view cs m
memory_exec_err [] m = refl
memory_exec_err (c ∷ cs) m =
    ap (or_else (error_of (memory_reply c m))) (memory_exec_err cs (memory_after c m))

memory_exec_replies :
    (cs : List Command) (m : Memory) (n : ℕ) → memory_reply_at cs m n ≡ reply_at memory_view cs m n
memory_exec_replies [] m n = refl
memory_exec_replies (c ∷ cs) m zero = refl
memory_exec_replies (c ∷ cs) m (suc n) = memory_exec_replies cs (memory_after c m) n

memory_incr_by :
    (k j : Text) (c n : ℕ) (m : Memory)
    → Holds (m k) c
    → c + n < 2 ^ 63
    → memory_after (incr_by k (pos n)) m j
      ≡ (if text_eq k j then some (format_int (pos (c + n))) else m j)
memory_incr_by k j c n m h b = rw (number_of-Holds (m k) c h (omega arith), add64-pos c n b) refl

-- The store in memory satisfies the laws.
pub memory_laws : RedisLaws memory_view
memory_laws = record {
  exec_store = λ cs m _. memory_exec_store cs m;
  exec_err = λ cs m _. memory_exec_err cs m;
  exec_replies = λ cs m n _. memory_exec_replies cs m n;
  after-Reachable = λ c m h. tt;
  reply-get = λ k m. refl;
  read-get = λ k j m. refl;
  reply-ttl = λ k m. (negsuc 0, refl);
  read-ttl = λ k j m. refl;
  ttl_now-reply = λ k m _. (negsuc 0, refl);
  ttl_now-Reachable = λ k m h. tt;
  read-ttl_now = λ k j m. refl;
  reply-incr_by = λ k c n m h b. refl;
  read-incr_by = memory_incr_by;
  reply-set = λ k n m. refl;
  read-set = λ k j n m. refl;
  reply-expire = λ k d m. refl;
  read-expire = λ k j d m h. refl;
}
