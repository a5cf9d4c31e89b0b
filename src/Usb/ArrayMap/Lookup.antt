-- ===== src/Usb/ArrayMap/Lookup.antt =====
-- What `Get` finds after `Put` and after `Delete`.
use mikanos.Prelude.{
  ℕ, ◌+◌, ◌≤◌, ◌≡◌, refl, Bool, true, false, ◌&&◌, Option, none, some, List, [], ◌∷◌, arith, ◌==◌,
  if◌then◌else◌,
}
use mikanos.Usb.ArrayMap.{get, put, delete}

module _ {ℓ} {V : Type ℓ} where
  -- Whether a slot is free.
  unfoldable pub has_free : List (Option ℕ × V) → Bool
  has_free [] = false
  has_free ((none, v) ∷ table) = true
  has_free ((some k, v) ∷ table) = has_free table

  -- How many slots have a key.
  unfoldable pub count_slots : ℕ → List (Option ℕ × V) → ℕ
  count_slots key [] = 0
  count_slots key ((none, v) ∷ table) = count_slots key table
  count_slots key ((some k, v) ∷ table) = (if k == key then 1 else 0) + count_slots key table

  get_absent :
      (table : List (Option ℕ × V)) (key : ℕ) → count_slots key table ≡ 0 → get table key ≡ none
  unfolding get count_slots
  get_absent [] key h = refl
  get_absent ((none, v) ∷ table) key h = get_absent table key h
  get_absent ((some k, v) ∷ table) key h = ground (arith, get_absent table key)

  -- After `Put` of a key that the map does not have, `Get` finds its value, provided that a slot was
  -- free, and what it found before for every other key.
  pub get-put :
      (table : List (Option ℕ × V)) (key : ℕ) (value : V) (other : ℕ)
      → count_slots key table ≡ 0
      → get (put table key value) other
        ≡ (if key == other && has_free table then some value else get table other)
  unfolding get put has_free count_slots
  get-put [] key value other h = ground arith
  get-put ((none, v) ∷ table) key value other h = ground (arith, get_absent table key h)
  get-put ((some k, v) ∷ table) key value other h = ground (arith, get-put table key value other)

  -- `Put` fills one slot with the key, if one is free.
  pub count_slots-put :
      (table : List (Option ℕ × V)) (key : ℕ) (value : V) (other : ℕ)
      → count_slots other (put table key value)
        ≡ (if key == other && has_free table then 1 else 0) + count_slots other table
  unfolding put has_free count_slots
  count_slots-put [] key value other = ground arith
  count_slots-put ((none, v) ∷ table) key value other = ground arith
  count_slots-put ((some k, v) ∷ table) key value other =
      ground (arith, count_slots-put table key value other)

  -- After `Delete` of a key that at most one slot has, `Get` does not find it, and finds what it
  -- found before for every other key.
  pub get-delete :
      (table : List (Option ℕ × V)) (key other : ℕ)
      → count_slots key table ≤ 1
      → get (delete table key) other ≡ (if key == other then none else get table other)
  unfolding get delete count_slots
  get-delete [] key other h = ground arith
  get-delete ((none, v) ∷ table) key other h = get-delete table key other h
  get-delete ((some k, v) ∷ table) key other h =
      ground (arith, get-delete table key other, get_absent table key)
