-- ===== src/Beacon/Order.antt =====
-- The order in which the nodes are asked: every node is in it.
use mathlib.Core.List.{Memᴰ}
use mathlib.Core.Option
use mev_boost_relay.Prelude.{
  ℕ, zero, suc, ◌<◌, ◌≡◌, refl, sym, ap, subst, ◌∙◌, ◌⊎◌, inl, inr, some, List, [], ◌∷◌, ◌++◌,
  get_elem?, set, length, length-append, All, arith,
}
use mev_boost_relay.Beacon.{instances_by_last_response, reversed}

module _ {ℓ} {A : Type ℓ} where
  get_elem-Mem : (xs : List A) (i : ℕ) (x : A) → get_elem? xs i ≡ some x → Memᴰ x xs
  get_elem-Mem [] i x e = cc
  get_elem-Mem (y ∷ xs) zero x e = Memᴰ.head (Option.some-injective x y (sym e))
  get_elem-Mem (y ∷ xs) (suc i) x e = Memᴰ.tail (get_elem-Mem xs i x e)

  get_elem_in_range : (xs : List A) (i : ℕ) → i < length xs → (x : A) × (get_elem? xs i ≡ some x)
  get_elem_in_range [] i h = absurd (omega arith)
  get_elem_in_range (x ∷ xs) zero h = (x, refl)
  get_elem_in_range (x ∷ xs) (suc i) h = get_elem_in_range xs i (omega arith)

  length-set : (xs : List A) (i : ℕ) (v : A) → length (set xs i v) ≡ length xs
  length-set [] i v = refl
  length-set (x ∷ xs) zero v = refl
  length-set (x ∷ xs) (suc i) v = ap suc (length-set xs i v)

  Mem-set : (xs : List A) (i : ℕ) (v x : A) → Memᴰ x (set xs i v) → (x ≡ v) ⊎ Memᴰ x xs
  Mem-set [] i v x m = inr m
  Mem-set (y ∷ xs) zero v x (Memᴰ.head e) = inl e
  Mem-set (y ∷ xs) zero v x (Memᴰ.tail m) = inr (Memᴰ.tail m)
  Mem-set (y ∷ xs) (suc i) v x (Memᴰ.head e) = inr (Memᴰ.head e)
  Mem-set (y ∷ xs) (suc i) v x (Memᴰ.tail m) = elim (Mem-set xs i v x m) [
    | inl e ↦ inl e
    | inr k ↦ inr (Memᴰ.tail k)
  ]

  Mem-swapped :
      (first best : A) (xs : List A) (i : ℕ) (x : A)
      → get_elem? xs i ≡ some best
      → Memᴰ x (best ∷ set xs i first)
      → Memᴰ x (first ∷ xs)
  Mem-swapped first best xs i x e (Memᴰ.head q) =
      Memᴰ.tail (get_elem-Mem xs i x (e ∙ ap some (sym q)))
  Mem-swapped first best xs i x e (Memᴰ.tail m) = elim (Mem-set xs i first x m) [
    | inl q ↦ Memᴰ.head q
    | inr k ↦ Memᴰ.tail k
  ]

  Mem-append : (xs ys : List A) (x : A) → Memᴰ x (xs ++ ys) → Memᴰ x xs ⊎ Memᴰ x ys
  Mem-append [] ys x m = inr m
  Mem-append (y ∷ xs) ys x (Memᴰ.head e) = inl (Memᴰ.head e)
  Mem-append (y ∷ xs) ys x (Memᴰ.tail m) = elim (Mem-append xs ys x m) [
    | inl k ↦ inl (Memᴰ.tail k)
    | inr k ↦ inr k
  ]

  Mem-reversed : (xs : List A) (x : A) → Memᴰ x (reversed xs) → Memᴰ x xs
  unfolding reversed
  Mem-reversed [] x m = m
  Mem-reversed (y ∷ xs) x m = elim (Mem-append (reversed xs) (y ∷ []) x m) [
    | inl k ↦ Memᴰ.tail (Mem-reversed xs x k)
    | inr (Memᴰ.head e) ↦ Memᴰ.head e
    | inr (Memᴰ.tail k) ↦ elim k [ ]
  ]

  length-reversed : (xs : List A) → length (reversed xs) ≡ length xs
  unfolding reversed
  length-reversed [] = refl
  length-reversed (x ∷ xs) = omega (arith, length-append (reversed xs) (x ∷ []), length-reversed xs)

  module _ {κ} (P : A → Type κ) where
    -- What was overwritten is put back.
    All-unset :
        (xs : List A) (i : ℕ) (v x : A)
        → get_elem? xs i ≡ some x
        → P x
        → All P (set xs i v)
        → P v × All P xs
    All-unset [] i v x e p h = cc
    All-unset (y ∷ xs) zero v x e p h = (h.0, (subst P (Option.some-injective x y (sym e)) p, h.1))
    All-unset (y ∷ xs) (suc i) v x e p h =
        let rest = All-unset xs i v x e p h.1 in (rest.0, (h.0, rest.1))

    All-append : (xs ys : List A) → All P (xs ++ ys) → All P xs × All P ys
    All-append [] ys h = (tt, h)
    All-append (x ∷ xs) ys h = ((h.0, (All-append xs ys h.1).0), (All-append xs ys h.1).1)

    All-reversed : (xs : List A) → All P (reversed xs) → All P xs
    unfolding reversed
    All-reversed [] h = tt
    All-reversed (x ∷ xs) h =
        let parts = All-append (reversed xs) (x ∷ []) h in (parts.1.0, All-reversed xs parts.0)

-- An order is as long as the list, its elements are the list's, and what all of it satisfies, all
-- of the list does.
pub record IsOrder {A : Type 0} (xs ys : List A) : Type 1 where
  pub same_length : length ys ≡ length xs
  pub within : (x : A) → Memᴰ x ys → Memᴰ x xs
  pub covers : (P : A → Type 0) → All P ys → All P xs

module _ {A : Type 0} where
  pub last_response-IsOrder :
      (i : ℕ) (xs : List A)
      → i < length xs
      → (ys : List A) × (instances_by_last_response i xs ≡ some ys) × IsOrder xs ys
  unfolding instances_by_last_response
  last_response-IsOrder zero xs h =
      (xs, refl, record { same_length = refl; within = λ x m. m; covers = λ P p. p })
  last_response-IsOrder (suc i) [] h = absurd (omega arith)
  last_response-IsOrder (suc i) (x ∷ xs) h =
      let (best, e) = get_elem_in_range xs i (omega arith) in
      (
        best ∷ set xs i x,
        ap (Option.map (λ b. b ∷ set xs i x)) e,
        record {
          same_length = ap suc (length-set xs i x);
          within = λ y m. Mem-swapped x best xs i y e m;
          covers = λ P p. All-unset P xs i x best e p.0 p.1;
        },
      )

  pub least_used-IsOrder :
      (i : ℕ) (xs : List A)
      → i < length xs
      → (ys : List A) × (Option.map reversed (instances_by_last_response i xs) ≡ some ys)
        × IsOrder xs ys
  least_used-IsOrder i xs h =
      let (ys, e, o) = last_response-IsOrder i xs h in
      (
        reversed ys,
        ap (Option.map reversed) e,
        record {
          same_length = length-reversed ys ∙ o.same_length;
          within = λ x m. o.within x (Mem-reversed ys x m);
          covers = λ P p. o.covers P (All-reversed P ys p);
        },
      )
