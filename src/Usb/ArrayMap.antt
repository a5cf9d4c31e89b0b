-- ===== src/Usb/ArrayMap.antt =====
-- src/kernel/usb/arraymap.hpp: a map in an array of slots. Keys are compared with `==` on their words.
pub mod Lookup
pub mod Tests
use mikanos.Prelude.{ℕ, Option, none, some, List, [], ◌∷◌, ◌==◌, if◌then◌else◌}

module _ {ℓ} {V : Type ℓ} where
  -- `Get`: the value of the first slot with the key.
  pub get : List (Option ℕ × V) → ℕ → Option V
  get [] key = none
  get ((none, v) ∷ table) key = get table key
  get ((some k, v) ∷ table) key = if k == key then some v else get table key

  -- `Put`: into the first free slot; without one nothing happens.
  pub put : List (Option ℕ × V) → ℕ → V → List (Option ℕ × V)
  put [] key value = []
  put ((none, v) ∷ table) key value = (some key, value) ∷ table
  put ((some k, v) ∷ table) key value = (some k, v) ∷ put table key value

  -- `Delete`: the first slot with the key becomes free; its value stays.
  pub delete : List (Option ℕ × V) → ℕ → List (Option ℕ × V)
  delete [] key = []
  delete ((none, v) ∷ table) key = (none, v) ∷ delete table key
  delete ((some k, v) ∷ table) key =
      let later = delete table key in if k == key then (none, v) ∷ table else (some k, v) ∷ later
