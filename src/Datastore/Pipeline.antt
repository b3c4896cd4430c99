-- ===== src/Datastore/Pipeline.antt =====
-- Programs over a `redis.Pipeliner`: the commands handed to it wait in a list until `Exec` sends
-- them as one batch.
pub mod Batch
use mev_boost_relay.Prelude.{ℕ, Option, none, some, List, [], ◌∷◌, ◌++◌, Bytes, ◌==◌, if◌then◌else◌}
use mev_boost_relay.Datastore.Server.{
  Error, not_copied, copy, redis_nil, redis_error, Cmd, Reply, done, missing, text, table, count,
  failed, Prog, ok, err, call,
}

abbrev pub and_then {ℓ κ} : {A : Type ℓ} {B : Type κ} → Prog A → (A → Prog B) → Prog B
and_then (ok a) f = f a
and_then (err e) f = err e
and_then (call cs k) f = call cs (λ rs. and_then (k rs) f)

-- What a function does with the pipeliner that it is given, whose queue it may leave unsent.
abbrev pub M : Type 0 → Type 0
M A = List Cmd → Prog (A × List Cmd)

infixl 5 ◌>>=◌ ◌>>◌
abbrev pub ◌>>=◌ : {A B : Type 0} → M A → (A → M B) → M B
◌>>=◌ m f q = and_then (m q) (λ r. f r.0 r.1)

abbrev pub ◌>>◌ : {B : Type 0} → M (Unit {0}) → M B → M B
◌>>◌ m k q = and_then (m q) (λ r. k r.1)

abbrev pub pure : {A : Type 0} → A → M A
pure a q = ok (a, q)

abbrev pub throw : {A : Type 0} → Error → M A
throw e q = err e

-- `pipeliner.Set(…).Err()`: nothing is sent yet, so there is no error yet.
abbrev pub enqueue : Cmd → M (Unit {0})
enqueue c q = ok (tt, q ++ (c ∷ []))

-- `pipeliner.Exec`
abbrev pub exec : M (List Reply)
exec q = call q (λ rs. ok (rs, []))

-- A command on the client itself.
abbrev pub send : Cmd → M (List Reply)
send c q = call (c ∷ []) (λ rs. ok (rs, q))

-- The error of `Exec`: that of the first command that failed.
abbrev pub first_error : List Reply → Option Error
first_error [] = none
first_error (missing ∷ rs) = some redis_nil
first_error (failed e ∷ rs) = some e
first_error (done ∷ rs) = first_error rs
first_error (text _ ∷ rs) = first_error rs
first_error (table _ ∷ rs) = first_error rs
first_error (count _ ∷ rs) = first_error rs

abbrev pub throw_if : Option Error → M (Unit {0})
throw_if none = pure tt
throw_if (some e) = throw e

-- `if err != nil && !errors.Is(err, redis.Nil)`
abbrev pub unless_nil : Option Error → M (Unit {0})
unless_nil none = pure tt
unless_nil (some redis_nil) = pure tt
unless_nil (some e) = throw e

-- The reply of the command that was queued last.
abbrev pub last_reply : List Reply → Reply
last_reply [] = failed (redis_error 0)
last_reply (r ∷ []) = r
last_reply (r ∷ s ∷ rs) = last_reply (s ∷ rs)

-- `c.Result()` of a command that gives a text, a table or a number. A reply of another kind is an
-- error of the client.
abbrev pub text_result : Reply → M Bytes
text_result (text s) = pure s
text_result missing = throw redis_nil
text_result (failed e) = throw e
text_result _ = throw (redis_error 1)

abbrev pub table_result : Reply → M (List (Bytes × Bytes))
table_result (table m) = pure m
table_result missing = throw redis_nil
table_result (failed e) = throw e
table_result _ = throw (redis_error 1)

abbrev pub count_result : Reply → M ℕ
count_result (count n) = pure n
count_result missing = throw redis_nil
count_result (failed e) = throw e
count_result _ = throw (redis_error 1)

-- After an `Exec`: no reply at all on `redis.Nil`, which the callers take for a default.
abbrev pub present : Option Error → Reply → M (Option Reply)
present none r = pure (some r)
present (some redis_nil) r = pure none
present (some e) r = throw e

abbrev pub or_throw : {A : Type 0} → Error → Option A → M A
or_throw e none = throw e
or_throw e (some a) = pure a

-- `_, err = pipeliner.Exec(ctx); if err != nil { return … }`
answered : List Reply → M (Unit {0})
answered rs = throw_if (first_error rs)

unfoldable pub exec_and_check : M (Unit {0})
unfolding answered
exec_and_check = do rs ← exec; answered rs

-- `c.Result()` of a copy; `wasCopied == 0` is an error.
copied_some : ℕ → M (Unit {0})
copied_some n = if n == 0 then throw not_copied else pure tt

was_copied : List Reply → M (Unit {0})
unfolding copied_some
was_copied rs = do throw_if (first_error rs); n ← count_result (last_reply rs); copied_some n

unfoldable pub copy_and_check : Bytes → Bytes → M (Unit {0})
unfolding was_copied
copy_and_check src dst = do enqueue (copy src dst); rs ← exec; was_copied rs
