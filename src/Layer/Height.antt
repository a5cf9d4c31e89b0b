-- ===== src/Layer/Height.antt =====
-- `UpDown` and `Hide`: the height that a layer gets, and the order of the others.
use mikanos.Prelude.{
  ℕ, ◌+◌, ◌-◌, ◌<◌, ◌≤◌, ◌≡◌, ◌≢◌, refl, ◌∙◌, ap, min, false, Option, none, some, List, arith, ◌==◌,
  ltb, if◌then◌else◌, length, count, erase_all, Returns, Bool-cases, inl, inr,
}
use mikanos.Prelude.Int.{pos, negsuc}
use mikanos.Layer.{
  Layer, LayerManager, find_layer, find_index, erase_first, insert_at, restack, hide, up_down,
  get_height,
}
use mikanos.Layer.Stack.{
  find_index-length, find_index_le, erase_first-absent, count-erase_first, erase_all-erase_first,
  length-erase_first, erase_all-insert_at, count-insert_at, length-insert_at, find_index-insert_at,
  find_index-insert_other,
}

-- No layer stands in the stack twice, and each in the stack is there.
pub record IsSound (m : LayerManager) : Type 0 where
  pub once : (id : ℕ) → count id m.layer_stack ≤ 1
  pub there : (id : ℕ) → find_layer id m.layers ≡ none → count id m.layer_stack ≡ 0

-- The stack after `UpDown` of layer `id` to height `h`.
pub record IsRestacked (h id : ℕ) (stack r : List ℕ) : Type 0 where
  pub height : find_index id r ≡ min h (length (erase_first id stack))
  pub size : length r ≡ length (erase_first id stack) + 1
  pub others : erase_all id r ≡ erase_all id stack
  pub counts : (other : ℕ) → count other r ≡ (if id == other then 1 else count other stack)
  pub places :
      (other : ℕ)
      → id ≢ other
      → find_index other r ≡ (
          let below = find_index other (erase_first id stack) in
          if ltb below (min h (length (erase_first id stack))) then below else below + 1)

insert_at-IsRestacked :
    (i h id : ℕ) (stack : List ℕ)
    → count id stack ≤ 1
    → i ≤ length (erase_first id stack)
    → min h (length (erase_first id stack)) ≡ i
    → IsRestacked h id stack (insert_at i id (erase_first id stack))
insert_at-IsRestacked i h id stack once fits same =
    let gone : count id (erase_first id stack) ≡ 0 =
      ground (arith, count-erase_first id id stack) in
    record {
      height = find_index-insert_at i id (erase_first id stack) gone ∙ omega arith;
      size = length-insert_at i id (erase_first id stack);
      others = erase_all-insert_at i id (erase_first id stack) ∙ erase_all-erase_first id stack;
      counts = λ other. ground (
        arith,
        count-insert_at i id other (erase_first id stack),
        count-erase_first id other stack,
        gone,
      );
      places =
          λ other e. rw same (find_index-insert_other i id other (erase_first id stack) e fits);
    }

pub restack-IsRestacked :
    (h id : ℕ) (stack : List ℕ)
    → h ≤ length stack
    → count id stack ≤ 1
    → IsRestacked h id stack (restack h id stack)
unfolding restack
restack-IsRestacked h id stack fits once = elim (Bool-cases (find_index id stack == length stack)) [
  | inl hidden ↦
      let absent : count id stack ≡ 0 = ground (arith, find_index-length id stack) in
      rw (hidden, ← ap (insert_at h id) (erase_first-absent id stack absent))
        (insert_at-IsRestacked h h id stack once (ground (arith, length-erase_first id stack))
          (ground (arith, length-erase_first id stack)))
  | inr shown ↦ rw shown (
      insert_at-IsRestacked (if h == length stack then h - 1 else h) h id stack once
        (ground (arith, length-erase_first id stack, find_index_le id stack))
        (ground (arith, length-erase_first id stack, find_index_le id stack)))
]

-- How `UpDown` of layer `id` to a height of 0 or more ends.
pub record IsMoved (m : LayerManager) (id h : ℕ) (r : LayerManager) : Type 0 where
  pub sound : IsSound r
  pub height : get_height r id ≡ pos (min h (length (erase_first id m.layer_stack)))
  pub stacked : IsRestacked (min h (length m.layer_stack)) id m.layer_stack r.layer_stack
  pub same_layers : r.layers ≡ m.layers

pub height-pos :
    (m : LayerManager) (id : ℕ)
    → find_index id m.layer_stack < length m.layer_stack
    → get_height m id ≡ pos (find_index id m.layer_stack)
unfolding get_height
height-pos m id h =
    let shown : (find_index id m.layer_stack == length m.layer_stack) ≡ false = ground arith in
    rw shown refl

-- In a sound manager, `UpDown` of a layer that is there to a height of 0 or more is defined and keeps
-- the stack sound. The
-- layer gets the height asked for, or the top if that is lower, and the other layers keep their order.
pub up_down_lem :
    (m : LayerManager) (id h : ℕ) {l : Layer}
    → IsSound m
    → find_layer id m.layers ≡ some l
    → Returns (up_down m id (pos h)) (IsMoved m id h)
unfolding up_down
up_down_lem m id h {l} k found =
    let stack : List ℕ = m.layer_stack in
    let at : ℕ = min h (length stack) in
    let s = restack-IsRestacked at id stack (omega arith) (k.once id) in
    let low : length (erase_first id stack) ≤ length stack =
      ground (arith, length-erase_first id stack) in
    rw found (record {
      sound = record {
        once = λ other. ground (arith, s.counts other, k.once other);
        there = λ other e. ground (arith, s.counts other, k.there other e, found);
      };
      height =
          height-pos (record m { layer_stack = restack at id stack }) id
            (omega (arith, s.height, s.size))
          ∙ ap pos (omega (arith, s.height));
      stacked = s;
      same_layers = refl;
    })

-- `Hide` keeps a sound stack sound; the layer has no height afterwards, and the other layers keep
-- their order.
pub hide_lem :
    (m : LayerManager) (id : ℕ)
    → IsSound m
    → IsSound (hide m id)
      × (get_height (hide m id) id ≡ negsuc 0)
      × (erase_all id (hide m id).layer_stack ≡ erase_all id m.layer_stack)
      × ((hide m id).layers ≡ m.layers)
unfolding hide get_height
hide_lem m id k = hidden (find_layer id m.layers) refl
  where
    gone :
        (stack : List ℕ)
        → count id stack ≡ 0
        → (if find_index id stack == length stack then negsuc 0 else pos (find_index id stack))
          ≡ negsuc 0
    gone stack e = ground (arith, find_index-length id stack)

    hidden :
        (o : Option Layer)
        → find_layer id m.layers ≡ o
        → IsSound (hide m id)
          × (get_height (hide m id) id ≡ negsuc 0)
          × (erase_all id (hide m id).layer_stack ≡ erase_all id m.layer_stack)
          × ((hide m id).layers ≡ m.layers)
    hidden none e = rw (e, hide) (k, gone m.layer_stack (k.there id e), refl, refl)
    hidden (some l) e =
        rw (e, hide)
          (
            record {
              once =
                  λ other. ground (arith, count-erase_first id other m.layer_stack, k.once other);
              there = λ other f.
                  ground (arith, count-erase_first id other m.layer_stack, k.there other f);
            },
            gone (erase_first id m.layer_stack)
                (ground (arith, count-erase_first id id m.layer_stack, k.once id)),
            erase_all-erase_first id m.layer_stack,
            refl,
          )
