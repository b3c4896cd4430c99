-- ===== src/Api/GetPayload/Stored.antt =====
-- Where a payload comes from.
use mev_boost_relay.Prelude.{ℕ, ◌≡◌, refl, ◌⊎◌, inl, inr, Option, none, some, Bytes}
use mev_boost_relay.Registry.{to_lower}
use mev_boost_relay.Payloads.{Made, made, refused}
use mev_boost_relay.Api.Equal.{Roots, Revealed}
use mev_boost_relay.Api.GetPayload.{
  Lookup, found, missing, failed, get_get_payload_response, or_else, from_memcached, from_database,
  asked_of, Stores, or_else, from_memcached, from_database, asked_of, Stores,
}

-- One of the stores has the payload of a slot, a proposer and a block hash.
abbrev pub Holds : {R : Roots} → Stores R → ℕ → Bytes → Bytes → Revealed R → Type 0
Holds {R} s slot pk hash r =
    (s.redis slot (to_lower pk) (to_lower hash) ≡ found r)
    ⊎ (((ask : ℕ → Bytes → Bytes → Lookup (Option (Revealed R))) × (s.memcached ≡ some ask)
          × (ask slot (to_lower pk) (to_lower hash) ≡ found (some r)))
        ⊎ (s.database slot pk hash ≡ found (made r)))

pub or_else_inv :
    {B : Type 0} (x rest : Lookup B) (b : B)
    → or_else x rest ≡ found b
    → (x ≡ found b) ⊎ (rest ≡ found b)
or_else_inv (found c) rest b h = inl h
or_else_inv missing rest b h = inr h
or_else_inv (failed e) rest b h = inr h

from_memcached_inv :
    {R : Roots} (x : Option (Lookup (Option (Revealed R)))) (rest : Lookup (Revealed R))
    (r : Revealed R)
    → from_memcached x rest ≡ found r
    → (x ≡ some (found (some r))) ⊎ (rest ≡ found r)
unfolding from_memcached
from_memcached_inv (some (found (some c))) rest r h = inl cc
from_memcached_inv (some (found none)) rest r h = inr h
from_memcached_inv (some missing) rest r h = inr h
from_memcached_inv (some (failed e)) rest r h = inr h
from_memcached_inv none rest r h = inr h

from_database_inv :
    {R : Roots} (x : Lookup (Made (Revealed R))) (r : Revealed R)
    → from_database x ≡ found r
    → x ≡ found (made r)
unfolding from_database
from_database_inv (found (made c)) r h = cc
from_database_inv (found (refused e)) r h = absurd cc
from_database_inv missing r h = absurd cc
from_database_inv (failed e) r h = absurd cc

asked_of_inv :
    {B : Type 0} (x : Option (ℕ → Bytes → Bytes → B)) (slot : ℕ) (pk hash : Bytes) (b : B)
    → asked_of x slot pk hash ≡ some b
    → ((ask : ℕ → Bytes → Bytes → B) × (x ≡ some ask) × (ask slot pk hash ≡ b))
asked_of_inv none slot pk hash b h = absurd cc
asked_of_inv (some ask) slot pk hash b h = (ask, refl, cc)

pub get_response-Holds :
    {R : Roots} (s : Stores R) (slot : ℕ) (pk hash : Bytes) (r : Revealed R)
    → get_get_payload_response s slot pk hash ≡ found r
    → Holds s slot pk hash r
unfolding get_get_payload_response
get_response-Holds s slot pk hash r h =
    elim (or_else_inv (s.redis slot (to_lower pk) (to_lower hash)) _ r h) [
      | inl redis ↦ inl redis
      | inr later ↦
          elim (from_memcached_inv (asked_of s.memcached slot (to_lower pk) (to_lower hash)) _ r
            later) [
              | inl cached ↦
                  inr (inl (asked_of_inv s.memcached slot (to_lower pk) (to_lower hash) _ cached))
              | inr last ↦ inr (inr (from_database_inv (s.database slot pk hash) r last))
            ]
    ]
