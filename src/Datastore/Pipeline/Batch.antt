-- ===== src/Datastore/Pipeline/Batch.antt =====
-- A copy at the end of a queue, as the auction sends it.
use mev_boost_relay.Prelude.{◌≡◌, ap, ◌∙◌, none, some, List, [], ◌∷◌, ◌++◌, Bytes, arith}
use mev_boost_relay.Datastore.Server.{
  Cmd, copy, Reply, done, missing, text, table, count, failed, Keyspace, put, reply, effect,
  replies, effects, run_keyspace, returns,
}
use mev_boost_relay.Datastore.Pipeline.{
  first_error, last_reply, was_copied, copy_and_check, exec_and_check,
}

copy_found :
    (ks : Keyspace) (src dst : Bytes) {t : Bytes}
    → ks.texts src ≡ some t
    → (reply (copy src dst) ks ≡ count 1)
      × (effect (copy src dst) ks ≡ record ks { texts = put ks.texts dst (some t) })
unfolding reply effect
copy_found ks src dst h = ground arith

first_error-cons :
    (r : Reply) (rs : List Reply) → first_error (r ∷ rs) ≡ none → first_error rs ≡ none
first_error-cons done rs h = h
first_error-cons (text _) rs h = h
first_error-cons (table _) rs h = h
first_error-cons (count _) rs h = h
first_error-cons missing rs h = cc
first_error-cons (failed e) rs h = cc

first_error-swap :
    (r : Reply) (rs rs' : List Reply)
    → first_error (r ∷ rs) ≡ none
    → first_error rs' ≡ none
    → first_error (r ∷ rs') ≡ none
first_error-swap done rs rs' h k = k
first_error-swap (text _) rs rs' h k = k
first_error-swap (table _) rs rs' h k = k
first_error-swap (count _) rs rs' h k = k
first_error-swap missing rs rs' h k = cc
first_error-swap (failed e) rs rs' h k = cc

last_reply-cons :
    (r : Reply) (rs : List Reply) → last_reply rs ≡ count 1 → last_reply (r ∷ rs) ≡ count 1
last_reply-cons r [] h = cc
last_reply-cons r (s ∷ rs) h = h

-- After commands that succeed and leave a text under `src`, a copy of it succeeds.
pub copy_last :
    (q : List Cmd) (ks : Keyspace) (src dst : Bytes) {t : Bytes}
    → first_error (replies q ks) ≡ none
    → (effects q ks).texts src ≡ some t
    → (first_error (replies (q ++ (copy src dst ∷ [])) ks) ≡ none)
      × (last_reply (replies (q ++ (copy src dst ∷ [])) ks) ≡ count 1)
      × (effects (q ++ (copy src dst ∷ [])) ks
          ≡ record (effects q ks) { texts = put (effects q ks).texts dst (some t) })
unfolding replies effects
copy_last [] ks src dst h k = let r = copy_found ks src dst k in (rw r.0, r.0, r.1)
copy_last (c ∷ q) ks src dst h k =
    let rest = replies q (effect c ks) in
    let r = copy_last q (effect c ks) src dst (first_error-cons (reply c ks) rest h) k in
    let rest' = replies (q ++ (copy src dst ∷ [])) (effect c ks) in
    (first_error-swap (reply c ks) rest rest' h r.0, last_reply-cons (reply c ks) rest' r.1, r.2)

was_copied_run :
    (rs : List Reply) (ks : Keyspace)
    → first_error rs ≡ none
    → last_reply rs ≡ count 1
    → run_keyspace (was_copied rs []) ks ≡ (returns (tt, []), ks)
unfolding was_copied run_keyspace
was_copied_run rs ks h k = ground arith

-- So the copy's check passes.
pub copy_and_check_run :
    (q : List Cmd) (ks : Keyspace) (src dst t : Bytes)
    → first_error (replies q ks) ≡ none
    → (effects q ks).texts src ≡ some t
    → run_keyspace (copy_and_check src dst q) ks
      ≡ (returns (tt, []), record (effects q ks) { texts = put (effects q ks).texts dst (some t) })
unfolding copy_and_check run_keyspace
copy_and_check_run q ks src dst t h k =
    let r = copy_last q ks src dst h k in
    was_copied_run (replies (q ++ (copy src dst ∷ [])) ks) _ r.0 r.1
    ∙ ap (λ s. (returns (tt, []), s)) r.2

pub exec_and_check_run :
    (q : List Cmd) (ks : Keyspace)
    → first_error (replies q ks) ≡ none
    → run_keyspace (exec_and_check q) ks ≡ (returns (tt, []), effects q ks)
unfolding exec_and_check run_keyspace
exec_and_check_run q ks h = ground arith
