-- ===== src/Datastore/Always.antt =====
-- What holds of every value that a program may return, whatever the server replies.
use mev_boost_relay.Prelude.{◌≡◌, subst, List}
use mev_boost_relay.Datastore.Server.{Reply, Prog, ok, err, call, Server, returns, run}
use mev_boost_relay.Datastore.Pipeline.{and_then}

unfoldable pub Always {ℓ κ} : {A : Type ℓ} → (A → Type κ) → Prog A → Type κ
Always P (ok a) = P a
Always P (err e) = Unit
Always P (call cs k) = (rs : List Reply) → Always P (k rs)

-- In particular what holds of every value.
pub Always-any {ℓ κ} : {A : Type ℓ} (P : A → Type κ) (p : Prog A) → ((a : A) → P a) → Always P p
unfolding Always
Always-any P (ok a) h = h a
Always-any P (err e) h = tt
Always-any P (call cs k) h = λ rs. Always-any P (k rs) h

pub Always-and_then {ℓ κ μ} :
    {A : Type ℓ} {B : Type κ} (P : B → Type μ) (p : Prog A) (f : A → Prog B)
    → ((a : A) → Always P (f a))
    → Always P (and_then p f)
unfolding Always
Always-and_then P (ok a) f h = h a
Always-and_then P (err e) f h = tt
Always-and_then P (call cs k) f h = λ rs. Always-and_then P (k rs) f h

returns_inj {ℓ} : {A : Type ℓ} (a b : A) → returns a ≡ returns b → a ≡ b
returns_inj a b h = cc

pub Always-run {ℓ κ} :
    {A : Type ℓ} (P : A → Type κ) (s : Server) (p : Prog A) (db : s.Db) (a : A)
    → Always P p
    → (run s p db).0 ≡ returns a
    → P a
unfolding Always run
Always-run P s (ok b) db a h e = subst P (returns_inj b a e) h
Always-run P s (err x) db a h e = absurd cc
Always-run P s (call cs k) db a h e =
    Always-run P s (k (s.exec cs db).0) (s.exec cs db).1 a (h (s.exec cs db).0) e
