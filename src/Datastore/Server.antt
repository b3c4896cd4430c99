-- ===== src/Datastore/Server.antt =====
-- The Redis client as datastore/redis.go uses it. A function of the package is a program: batches
-- of commands sent to the server, each with a continuation on the replies. What a server does with
-- a batch is a parameter, `Server`; its laws are the documented meaning of the commands, for a
-- server that answers. A `redis.Pipeliner` is the list of the commands handed to it since its last
-- `Exec`; a command on the client itself is a batch of one.
-- Not modelled: the expiry of keys by time (`Expire` and the expiration of `Set` do not show in
-- the contents between two calls).
use mev_boost_relay.Prelude.{
  ℕ, ◌≡◌, refl, sym, Option, none, some, List, [], ◌∷◌, Bytes, bytes_eq, if◌then◌else◌,
}
use mathlib.Core.Path.{subst₂}
use mev_boost_relay.Datastore.Assoc.{lookup, insert, delete}

-- The errors of the package, and those of the client with a number for their text.
pub data Error : Type 0 where
  redis_nil tx_failed not_copied bad_number unsupported_version : Error
  encoding_failed decoding_failed no_value no_submission : Error
  another_payload_already_delivered past_slot_already_delivered : Error
  redis_error : ℕ → Error

pub data Cmd : Type 0 where
  get del hget_all expire smembers : Bytes → Cmd
  set copy hget hdel sadd : Bytes → Bytes → Cmd
  hset : Bytes → Bytes → Bytes → Cmd

pub data Reply : Type 0 where
  done missing : Reply
  text : Bytes → Reply
  table : List (Bytes × Bytes) → Reply
  count : ℕ → Reply
  failed : Error → Reply

-- What a server holds: texts, hash tables and sets under their keys.
pub record Keyspace : Type 0 where
  pub texts : Bytes → Option Bytes
  pub tables : Bytes → List (Bytes × Bytes)

abbrev pub put {ℓ} : {A : Type ℓ} → (Bytes → A) → Bytes → A → Bytes → A
put f k a j = if bytes_eq k j then a else f j

found : Option Bytes → Reply
found none = missing
found (some v) = text v

copied : Option Bytes → Reply
copied none = count 0
copied (some v) = count 1

copy_text : Keyspace → Option Bytes → Bytes → Keyspace
copy_text ks none dst = ks
copy_text ks (some v) dst = record ks { texts = put ks.texts dst (some v) }

-- A set is a table of its members, each with an empty text.
unfoldable pub reply : Cmd → Keyspace → Reply
unfolding found copied
reply (get k) ks = found (ks.texts k)
reply (hget_all k) ks = table (ks.tables k)
reply (smembers k) ks = table (ks.tables k)
reply (hget k f) ks = found (lookup f (ks.tables k))
reply (copy src dst) ks = copied (ks.texts src)
reply (set k v) ks = done
reply (del k) ks = done
reply (expire k) ks = done
reply (hdel k f) ks = done
reply (sadd k m) ks = done
reply (hset k f v) ks = done

unfoldable pub effect : Cmd → Keyspace → Keyspace
unfolding copy_text
effect (set k v) ks = record ks { texts = put ks.texts k (some v) }
effect (copy src dst) ks = copy_text ks (ks.texts src) dst
effect (hset k f v) ks = record ks { tables = put ks.tables k (insert f v (ks.tables k)) }
effect (hdel k f) ks = record ks { tables = put ks.tables k (delete f (ks.tables k)) }
effect (sadd k m) ks = record ks { tables = put ks.tables k (insert m [] (ks.tables k)) }
effect (del k) ks = record { texts = put ks.texts k none; tables = put ks.tables k [] }
effect (get k) ks = ks
effect (hget_all k) ks = ks
effect (expire k) ks = ks
effect (smembers k) ks = ks
effect (hget k f) ks = ks

unfoldable pub replies : List Cmd → Keyspace → List Reply
replies [] ks = []
replies (c ∷ cs) ks = reply c ks ∷ replies cs (effect c ks)

unfoldable pub effects : List Cmd → Keyspace → Keyspace
effects [] ks = ks
effects (c ∷ cs) ks = effects cs (effect c ks)

-- The server behind the client. `IsUp` says that it answers; nothing is assumed of one that
-- does not.
pub record Server : Type 1 where
  pub Db : Type 0
  pub IsUp : Db → Type 0
  pub view : Db → Keyspace
  pub exec : List Cmd → Db → List Reply × Db
  pub exec_replies : (cs : List Cmd) (db : Db) → IsUp db → (exec cs db).0 ≡ replies cs (view db)
  pub exec_effects :
      (cs : List Cmd) (db : Db) → IsUp db → view (exec cs db).1 ≡ effects cs (view db)
  pub exec_IsUp : (cs : List Cmd) (db : Db) → IsUp db → IsUp (exec cs db).1

pub data Prog {ℓ} (A : Type ℓ) : Type ℓ where
  ok : A → Prog A
  err : Error → Prog A
  call : List Cmd → (List Reply → Prog A) → Prog A

pub data Result {ℓ} (A : Type ℓ) : Type ℓ where
  returns : A → Result A
  fails : Error → Result A

unfoldable pub run {ℓ} : {A : Type ℓ} (s : Server) → Prog A → s.Db → Result A × s.Db
run s (ok a) db = (returns a, db)
run s (err e) db = (fails e, db)
run s (call cs k) db = run s (k (s.exec cs db).0) (s.exec cs db).1

-- The same on the contents alone.
unfoldable pub run_keyspace {ℓ} : {A : Type ℓ} → Prog A → Keyspace → Result A × Keyspace
run_keyspace (ok a) ks = (returns a, ks)
run_keyspace (err e) ks = (fails e, ks)
run_keyspace (call cs k) ks = run_keyspace (k (replies cs ks)) (effects cs ks)

-- A server that answers gives what its contents give.
pub run-run_keyspace {ℓ} :
    {A : Type ℓ} (s : Server) (p : Prog A) (db : s.Db)
    → s.IsUp db
    → ((run s p db).0 ≡ (run_keyspace p (s.view db)).0)
      × (s.view (run s p db).1 ≡ (run_keyspace p (s.view db)).1)
unfolding run run_keyspace
run-run_keyspace s (ok a) db up = (refl, refl)
run-run_keyspace s (err e) db up = (refl, refl)
run-run_keyspace s (call cs k) db up =
    subst₂
      (λ rs ks.
        ((run s (k (s.exec cs db).0) (s.exec cs db).1).0 ≡ (run_keyspace (k rs) ks).0)
        × (s.view (run s (k (s.exec cs db).0) (s.exec cs db).1).1 ≡ (run_keyspace (k rs) ks).1))
      (s.exec_replies cs db up) (s.exec_effects cs db up)
      (run-run_keyspace s (k (s.exec cs db).0) (s.exec cs db).1 (s.exec_IsUp cs db up))

-- The contents themselves, as a server.
abbrev pub keyspace_server : Server
keyspace_server = record {
  Db = Keyspace;
  IsUp = λ _. Unit {0};
  view = λ ks. ks;
  exec = λ cs ks. (replies cs ks, effects cs ks);
  exec_replies = λ cs ks up. refl;
  exec_effects = λ cs ks up. refl;
  exec_IsUp = λ cs ks up. tt;
}

abbrev pub empty_keyspace : Keyspace
empty_keyspace = record { texts = λ _. none; tables = λ _. [] }

-- So what holds of the outcome on the contents holds of the outcome on the server.
pub on_server {ℓ κ} :
    {A : Type ℓ} (P : Result A × Keyspace → Type κ) (s : Server) (p : Prog A) (db : s.Db)
    → s.IsUp db
    → P (run_keyspace p (s.view db))
    → P ((run s p db).0, s.view (run s p db).1)
on_server P s p db up h =
    let e = run-run_keyspace s p db up in subst₂ (λ a k. P (a, k)) (sym e.0) (sym e.1) h
