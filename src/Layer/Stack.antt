-- ===== src/Layer/Stack.antt =====
-- The stack of layers as a list: where an id stands after `insert` and `erase`.
use mikanos.Prelude.{
  ℕ, zero, suc, ◌+◌, ◌-◌, ◌<◌, ◌≤◌, ◌≡◌, ◌≢◌, refl, min, List, [], ◌∷◌, arith, ◌==◌, ltb,
  if◌then◌else◌, length, count, erase_all,
}
use mikanos.Layer.{find_index, erase_first, insert_at}

-- An id that is not in the stack is found at the end.
pub find_index-length :
    (id : ℕ) (stack : List ℕ) → (find_index id stack == length stack) ≡ (count id stack == 0)
unfolding find_index
find_index-length id [] = ground arith
find_index-length id (x ∷ stack) = ground (arith, find_index-length id stack)

pub find_index_le : (id : ℕ) (stack : List ℕ) → find_index id stack ≤ length stack
unfolding find_index
find_index_le id [] = omega arith
find_index_le id (x ∷ stack) = ground (arith, find_index_le id stack)

pub erase_first-absent :
    (id : ℕ) (stack : List ℕ) → count id stack ≡ 0 → erase_first id stack ≡ stack
unfolding erase_first
erase_first-absent id [] h = refl
erase_first-absent id (x ∷ stack) h = ground (arith, erase_first-absent id stack)

pub count-erase_first :
    (id other : ℕ) (stack : List ℕ)
    → count other (erase_first id stack)
      ≡ (if id == other then count other stack - 1 else count other stack)
unfolding erase_first
count-erase_first id other [] = ground arith
count-erase_first id other (x ∷ stack) = ground (arith, count-erase_first id other stack)

pub erase_all-erase_first :
    (id : ℕ) (stack : List ℕ) → erase_all id (erase_first id stack) ≡ erase_all id stack
unfolding erase_first
erase_all-erase_first id [] = refl
erase_all-erase_first id (x ∷ stack) = ground (arith, erase_all-erase_first id stack)

pub length-erase_first :
    (id : ℕ) (stack : List ℕ)
    → length (erase_first id stack)
      ≡ (if find_index id stack == length stack then length stack else length stack - 1)
unfolding erase_first find_index
length-erase_first id [] = ground arith
length-erase_first id (x ∷ stack) =
    ground (arith, length-erase_first id stack, find_index_le id stack)

pub erase_all-insert_at :
    (i id : ℕ) (stack : List ℕ) → erase_all id (insert_at i id stack) ≡ erase_all id stack
unfolding insert_at
erase_all-insert_at zero id stack = ground arith
erase_all-insert_at (suc i) id [] = ground arith
erase_all-insert_at (suc i) id (x ∷ stack) = ground (arith, erase_all-insert_at i id stack)

pub count-insert_at :
    (i id other : ℕ) (stack : List ℕ)
    → count other (insert_at i id stack)
      ≡ (if id == other then count other stack + 1 else count other stack)
unfolding insert_at
count-insert_at zero id other stack = ground arith
count-insert_at (suc i) id other [] = ground arith
count-insert_at (suc i) id other (x ∷ stack) = ground (arith, count-insert_at i id other stack)

pub length-insert_at :
    (i id : ℕ) (stack : List ℕ) → length (insert_at i id stack) ≡ length stack + 1
unfolding insert_at
length-insert_at zero id stack = omega arith
length-insert_at (suc i) id [] = refl
length-insert_at (suc i) id (x ∷ stack) = omega (arith, length-insert_at i id stack)

-- An id that was not in the stack is found where it was put in, or at the end.
pub find_index-insert_at :
    (i id : ℕ) (stack : List ℕ)
    → count id stack ≡ 0
    → find_index id (insert_at i id stack) ≡ min i (length stack)
unfolding insert_at find_index
find_index-insert_at zero id stack h = ground arith
find_index-insert_at (suc i) id [] h = ground arith
find_index-insert_at (suc i) id (x ∷ stack) h = ground (arith, find_index-insert_at i id stack)

-- Another id moves up by one when it stood at the place or above.
pub find_index-insert_other :
    (i id other : ℕ) (stack : List ℕ)
    → id ≢ other
    → i ≤ length stack
    → find_index other (insert_at i id stack) ≡ (
        if ltb (find_index other stack) i
        then find_index other stack
        else find_index other stack + 1)
unfolding insert_at find_index
find_index-insert_other zero id other stack h p = ground arith
find_index-insert_other (suc i) id other [] h p = absurd (omega arith)
find_index-insert_other (suc i) id other (x ∷ stack) h p =
    ground (arith, find_index-insert_other i id other stack h)

-- Another id moves down by one when it stood above the one that is taken out.
pub find_index-erase_first :
    (id other : ℕ) (stack : List ℕ)
    → id ≢ other
    → find_index other (erase_first id stack) ≡ (
        if ltb (find_index id stack) (find_index other stack)
        then find_index other stack - 1
        else find_index other stack)
unfolding erase_first find_index
find_index-erase_first id other [] h = ground arith
find_index-erase_first id other (x ∷ stack) h =
    ground (arith, find_index-erase_first id other stack h)

-- Only one id stands at the bottom.
pub find_index_bottom :
    (id other : ℕ) (stack : List ℕ)
    → find_index id stack ≡ 0
    → find_index other stack ≡ 0
    → 0 < length stack
    → id ≡ other
unfolding find_index
find_index_bottom id other [] h e p = absurd (omega arith)
find_index_bottom id other (x ∷ stack) h e p = ground arith
