-- ===== src/Usb/ArrayMap/Tests.antt =====
-- A map of three slots.
use mikanos.Prelude.{ℕ, ◌≡◌, ◌≤◌, refl, Option, none, some, List, [], ◌∷◌, arith}
use mikanos.Usb.ArrayMap.{get, put}
use mikanos.Usb.ArrayMap.Lookup.{count_slots, has_free, get-put}

abbrev table : List (Option ℕ × ℕ)
table = (some 7, 70) ∷ (none, 0) ∷ (none, 0) ∷ []

free_eight : count_slots 8 table ≡ 0
unfolding count_slots
free_eight = refl

one_seven : count_slots 7 table ≤ 1
unfolding count_slots
one_seven = omega arith

get-put_example : get (put table 8 80) 8 ≡ some 80
unfolding has_free
get-put_example = get-put table 8 80 8 free_eight
