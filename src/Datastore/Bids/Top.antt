-- ===== src/Datastore/Bids/Top.antt =====
-- The top bid is the highest one, in whatever order the map is visited.
use mathlib.Core.List.{Permᴰ, Memᴰ}
use mathlib.Core.List.Permᴰ
use mev_boost_relay.Prelude.{
  lt→ltb, le→not-ltb, bytes_eq, ◌<◌, ℕ, ◌≤◌, ◌≡◌, refl, subst, ◌⊎◌, inl, inr, List, [], ◌∷◌, Bytes,
  ltb, arith, if◌then◌else◌, Bool-cases,
}
use mev_boost_relay.Datastore.Assoc.{insert}
use mev_boost_relay.Datastore.Bids.{top_bid_loop, get_top_bid}

-- Every bid is at most `n`.
abbrev pub IsBound : ℕ → List (Bytes × ℕ) → Type 0
IsBound n [] = Unit
IsBound n (e ∷ m) = (e.1 ≤ n) × IsBound n m

top_bid_loop-IsBound :
    (pk : Bytes) (v : ℕ) (m : List (Bytes × ℕ))
    → (v ≤ (top_bid_loop pk v m).1) × IsBound (top_bid_loop pk v m).1 m
unfolding top_bid_loop
top_bid_loop-IsBound pk v [] = (omega arith, tt)
top_bid_loop-IsBound pk v ((b, x) ∷ m) =
    let r = top_bid_loop-IsBound (if ltb v x then b else pk) (if ltb v x then x else v) m in
    (ground (arith, r.0), (ground (arith, r.0), r.1))

top_bid_loop-least :
    (pk : Bytes) (v n : ℕ) (m : List (Bytes × ℕ))
    → v ≤ n
    → IsBound n m
    → (top_bid_loop pk v m).1 ≤ n
unfolding top_bid_loop
top_bid_loop-least pk v n [] h b = h
top_bid_loop-least pk v n ((c, x) ∷ m) h b =
    top_bid_loop-least (if ltb v x then c else pk) (if ltb v x then x else v) n m (ground arith) b.1

IsBound-mono : (m : List (Bytes × ℕ)) {a b : ℕ} → a ≤ b → IsBound a m → IsBound b m
IsBound-mono [] h i = tt
IsBound-mono (e ∷ m) h i = (omega arith, IsBound-mono m h i.1)

pub get_top_bid-IsBound : (bids : List (Bytes × ℕ)) → IsBound (get_top_bid bids).1 bids
unfolding get_top_bid
get_top_bid-IsBound bids = (top_bid_loop-IsBound [] 0 bids).1

pub get_top_bid-least :
    (bids : List (Bytes × ℕ)) (n : ℕ) → IsBound n bids → (get_top_bid bids).1 ≤ n
unfolding get_top_bid
get_top_bid-least bids n b = top_bid_loop-least [] 0 n bids (omega arith) b

IsBound-perm : (n : ℕ) {xs ys : List (Bytes × ℕ)} → Permᴰ xs ys → IsBound n xs → IsBound n ys
IsBound-perm n Permᴰ.nil b = tt
IsBound-perm n (Permᴰ.cons e p) b = (subst (λ x. x.1 ≤ n) e b.0, IsBound-perm n p b.1)
IsBound-perm n (Permᴰ.swap e f) b =
    (subst (λ x. x.1 ≤ n) f b.1.0, (subst (λ x. x.1 ≤ n) e b.0, b.1.1))
IsBound-perm n (Permᴰ.trans p q) b = IsBound-perm n q (IsBound-perm n p b)

-- The value of the top bid does not depend on the order in which the map is visited.
pub get_top_bid-perm :
    {xs ys : List (Bytes × ℕ)} → Permᴰ xs ys → (get_top_bid xs).1 ≡ (get_top_bid ys).1
get_top_bid-perm {xs} {ys} p = omega (
  arith,
  get_top_bid-least xs (get_top_bid ys).1 (IsBound-perm _ (Permᴰ.symm p) (get_top_bid-IsBound ys)),
  get_top_bid-least ys (get_top_bid xs).1 (IsBound-perm _ p (get_top_bid-IsBound xs)),
)

loop-found :
    (pk : Bytes) (v : ℕ) (m : List (Bytes × ℕ))
    → (top_bid_loop pk v m ≡ (pk, v)) ⊎ Memᴰ (top_bid_loop pk v m) m
unfolding top_bid_loop
loop-found pk v [] = inl refl
loop-found pk v ((b, x) ∷ m) = elim (Bool-cases (ltb v x)) [
  | inl higher ↦
      rw higher (elim (loop-found b x m) [ inl e ↦ inr (Memᴰ.head e) | inr i ↦ inr (Memᴰ.tail i) ])
  | inr lower ↦ rw lower (elim (loop-found pk v m) [ inl e ↦ inl e | inr i ↦ inr (Memᴰ.tail i) ])
]

-- The pair is an entry of the map; without a positive bid it is the empty key with 0.
pub get_top_bid_found :
    (bids : List (Bytes × ℕ)) → (get_top_bid bids ≡ ([], 0)) ⊎ Memᴰ (get_top_bid bids) bids
unfolding get_top_bid
get_top_bid_found bids = loop-found [] 0 bids

-- Every other bid stays within what bounds the map and the new bid.
insert-IsBound :
    (b : Bytes) (v n : ℕ) (m : List (Bytes × ℕ)) → v ≤ n → IsBound n m → IsBound n (insert b v m)
unfolding insert
insert-IsBound b v n [] h i = (h, tt)
insert-IsBound b v n ((c, x) ∷ m) h i = ground (arith, insert-IsBound b v n m h i.1)

insert-le-bound : (b : Bytes) (v n : ℕ) (m : List (Bytes × ℕ)) → IsBound n (insert b v m) → v ≤ n
unfolding insert
insert-le-bound b v n [] i = i.0
insert-le-bound b v n ((c, x) ∷ m) i = ground (arith, insert-le-bound b v n m)

-- A builder's new bid is at most the top bid that it leads to, which is at most the higher of the
-- new bid and the old top bid.
pub insert_bounds :
    (b : Bytes) (v : ℕ) (m : List (Bytes × ℕ))
    → (v ≤ (get_top_bid (insert b v m)).1)
      × ((n : ℕ) → v ≤ n → (get_top_bid m).1 ≤ n → (get_top_bid (insert b v m)).1 ≤ n)
insert_bounds b v m = (
  insert-le-bound b v _ m (get_top_bid-IsBound (insert b v m)),
  λ n h k.
      get_top_bid-least (insert b v m) n
        (insert-IsBound b v n m h (IsBound-mono m k (get_top_bid-IsBound m))),
)

loop_keeps : (b : Bytes) (v : ℕ) (m : List (Bytes × ℕ)) → IsBound v m → top_bid_loop b v m ≡ (b, v)
unfolding top_bid_loop
loop_keeps b v [] i = refl
loop_keeps b v ((c, x) ∷ m) i = rw (le→not-ltb x v i.0) (loop_keeps b v m i.1)

loop-insert :
    (pk b : Bytes) (x v n : ℕ) (m : List (Bytes × ℕ))
    → x < v
    → n < v
    → IsBound n m
    → top_bid_loop pk x (insert b v m) ≡ (b, v)
unfolding top_bid_loop insert
loop-insert pk b x v n [] h k i = rw (lt→ltb x v h)
loop-insert pk b x v n ((c, y) ∷ m) h k i = elim (Bool-cases (bytes_eq c b)) [
  | inl same ↦
      rw (same, top_bid_loop)
        (rw (lt→ltb x v h) (loop_keeps b v m (IsBound-mono m {a = n} (omega arith) i.1)))
  | inr other ↦ rw other (
      loop-insert (if ltb x y then c else pk) b (if ltb x y then y else x) v n m (ground arith) k
        i.1)
]

-- A bid above all others is the top bid, under its builder's key.
pub insert_wins :
    (b : Bytes) (v : ℕ) (m : List (Bytes × ℕ))
    → (get_top_bid m).1 < v
    → get_top_bid (insert b v m) ≡ (b, v)
unfolding get_top_bid
insert_wins b v m h =
    loop-insert [] b 0 v (top_bid_loop [] 0 m).1 m (omega arith) h (get_top_bid-IsBound m)
