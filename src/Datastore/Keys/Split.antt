-- ===== src/Datastore/Keys/Split.antt =====
-- A text that is cut at a byte which does not stand before the cut has one reading.
use mev_boost_relay.Prelude.{
  ℕ, ◌≡◌, refl, ◌≢◌, [], ◌∷◌, ◌++◌, Bool, true, ◌&&◌, not, arith, Bytes, All, ◌==◌,
}

abbrev pub Lacks : ℕ → Bytes → Type 0
Lacks c = All (λ x. x ≢ c)

head_eq : {x y : ℕ} {xs ys : Bytes} → x ∷ xs ≡ y ∷ ys → x ≡ y
head_eq h = cc

tail_eq : {x y : ℕ} {xs ys : Bytes} → x ∷ xs ≡ y ∷ ys → xs ≡ ys
tail_eq h = cc

pub append_cancel_left : (xs : Bytes) {ys zs : Bytes} → xs ++ ys ≡ xs ++ zs → ys ≡ zs
append_cancel_left [] h = h
append_cancel_left (x ∷ xs) h = append_cancel_left xs (tail_eq h)

pub split_unique :
    (c : ℕ) (xs xs' : Bytes) {ys ys' : Bytes}
    → Lacks c xs
    → Lacks c xs'
    → xs ++ (c ∷ ys) ≡ xs' ++ (c ∷ ys')
    → (xs ≡ xs') × (ys ≡ ys')
split_unique c [] [] l l' h = (refl, tail_eq h)
split_unique c [] (x ∷ xs') l l' h = absurd (l'.0 (cc (head_eq h)))
split_unique c (x ∷ xs) [] l l' h = absurd (l.0 (head_eq h))
split_unique c (x ∷ xs) (x' ∷ xs') l l' h =
    let r = split_unique c xs xs' l.1 l'.1 (tail_eq h) in (cc (head_eq h, r.0), r.1)

-- The condition, computed.
unfoldable pub lacks : ℕ → Bytes → Bool
lacks c [] = true
lacks c (x ∷ xs) = not (x == c) && lacks c xs

pub lacks→Lacks : (c : ℕ) (xs : Bytes) → lacks c xs ≡ true → Lacks c xs
unfolding lacks
lacks→Lacks c [] h = tt
lacks→Lacks c (x ∷ xs) h = (ground arith, lacks→Lacks c xs (ground arith))
