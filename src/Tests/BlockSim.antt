-- ===== src/Tests/BlockSim.antt =====
-- With a maximum of one, two calls come in and the first ends.
use mev_boost_relay.Prelude.{◌+◌, ◌≡◌, refl, [], length}
use mev_boost_relay.BlockSim.{
  Limiter, enter, leave, enters, leaves, Reach, here, next, start, allowed, current_counter,
  send_limited,
}

abbrev one_left : Limiter
one_left = leave [] (enter 1 8 (enter 1 7 start))

one_left-Reach : Reach 1 one_left
unfolding enter
one_left-Reach = next (next (next here (enters 7)) (enters 8)) (leaves 7 [] [] refl)

send_limited_example :
    (current_counter one_left ≡ length one_left.waiting + length one_left.active)
    × (length one_left.active ≡ allowed 1 (current_counter one_left))
send_limited_example = send_limited 1 one_left one_left-Reach
