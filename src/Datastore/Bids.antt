-- ===== src/Datastore/Bids.antt =====
-- datastore/utils.go: the builders' latest bids for a slot, a parent and a proposer.
pub mod Top
use mev_boost_relay.Prelude.{ℕ, List, [], ◌∷◌, Option, none, some, Bytes, ltb, if◌then◌else◌, map}
use mev_boost_relay.Decimal.{parse}

-- `z.SetString(s, 10)` with its second result ignored: what `z` holds for a text that is no number
-- is not defined, and is the parameter `undefined`.
unfoldable pub set_string : (Bytes → ℕ) → Bytes → ℕ
set_string undefined s = elim (parse s) [ none ↦ undefined s | some n ↦ n ]

unfoldable pub new_builder_bids : (Bytes → ℕ) → List (Bytes × Bytes) → List (Bytes × ℕ)
unfolding set_string
new_builder_bids undefined [] = []
new_builder_bids undefined ((pubkey, value) ∷ m) =
    (pubkey, set_string undefined value) ∷ new_builder_bids undefined m

-- The loop of `getTopBid`, over the best entry so far.
top_bid_loop : Bytes → ℕ → List (Bytes × ℕ) → Bytes × ℕ
top_bid_loop pubkey value [] = (pubkey, value)
top_bid_loop pubkey value ((b, v) ∷ m) =
    top_bid_loop (if ltb value v then b else pubkey) (if ltb value v then v else value) m

unfoldable pub get_top_bid : List (Bytes × ℕ) → Bytes × ℕ
unfolding top_bid_loop
get_top_bid bids = top_bid_loop [] 0 bids
