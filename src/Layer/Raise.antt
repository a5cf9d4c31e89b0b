-- ===== src/Layer/Raise.antt =====
-- The order of the stack when `Activate` raises a layer: it comes to stand directly below the mouse.
use mikanos.Prelude.{
  ℕ, zero, suc, ◌-◌, ◌<◌, ◌≡◌, ◌≢◌, refl, sym, ◌∙◌, ap, some, arith, ltb, length, count, erase_all,
  Returns, Returns->>=, Returns_mono, Bool-cases, inl, inr,
}
use mikanos.Prelude.Int.{pos}
use mikanos.Layer.{
  Layer, LayerManager, find_layer, find_index, erase_first, get_height, up_down, raise, below,
}
use mikanos.Layer.Stack.{
  find_index-length, find_index_le, length-erase_first, find_index-erase_first, find_index_bottom,
}
use mikanos.Layer.Height.{IsSound, IsMoved, height-pos, up_down_lem}

-- How the stack stands after layer `id` has been raised: directly below the mouse.
pub record IsRaised (m : LayerManager) (id mouse : ℕ) (r : LayerManager) : Type 0 where
  pub sound : IsSound r
  pub place : get_height r id ≡ below (get_height r mouse)
  pub shown : count id r.layer_stack ≡ 1
  pub order : erase_all id r.layer_stack ≡ erase_all id m.layer_stack
  pub same_layers : r.layers ≡ m.layers

below-pos : (j : ℕ) → 0 < j → below (pos j) ≡ pos (j - 1)
below-pos zero h = absurd (omega arith)
below-pos (suc j) h = ap pos (omega arith)

-- Where the mouse stands once layer `id` is at the bottom.
record IsLowered (m low : LayerManager) (id mouse j : ℕ) : Type 0 where
  moved : IsMoved m id 0 low
  at : find_index mouse low.layer_stack ≡ j
  above : 0 < j
  inside : j < length low.layer_stack
  bottom : find_index id low.layer_stack ≡ 0
  listed : count id low.layer_stack ≡ 1

up_down-IsLowered :
    (m low : LayerManager) (id mouse : ℕ)
    → IsMoved m id 0 low
    → id ≢ mouse
    → count mouse m.layer_stack ≡ 1
    → IsLowered m low id mouse (find_index mouse low.layer_stack)
up_down-IsLowered m low id mouse t other shown =
    let bottom : find_index id low.layer_stack ≡ 0 = omega (arith, t.stacked.height) in
    let mouse_listed : count mouse low.layer_stack ≡ 1 = ground (arith, t.stacked.counts mouse) in
    let inside : find_index mouse low.layer_stack < length low.layer_stack =
      ground
        (arith, find_index-length mouse low.layer_stack, find_index_le mouse low.layer_stack) in
    record {
      moved = t;
      at = refl;
      above = elim (Bool-cases (ltb 0 (find_index mouse low.layer_stack))) [
        | inl above ↦ ground arith
        | inr level ↦
            absurd (
              other
                (find_index_bottom id mouse low.layer_stack bottom (ground arith) (omega arith)))
      ];
      inside = inside;
      bottom = bottom;
      listed = ground (arith, t.stacked.counts id);
    }

up_down-IsRaised :
    (m low r : LayerManager) (id mouse j : ℕ)
    → id ≢ mouse
    → IsLowered m low id mouse j
    → IsMoved low id (j - 1) r
    → IsRaised m id mouse r
up_down-IsRaised m low r id mouse j other d t =
    let size : length (erase_first id low.layer_stack) ≡ length low.layer_stack - 1 =
      ground (arith, length-erase_first id low.layer_stack, d.bottom, d.inside) in
    let passed : find_index mouse (erase_first id low.layer_stack) ≡ j - 1 =
      ground
        (arith, find_index-erase_first id mouse low.layer_stack other, d.bottom, d.at, d.above) in
    let lands : find_index id r.layer_stack ≡ j - 1 =
      omega (arith, t.stacked.height, size, d.inside) in
    let mouse_at : find_index mouse r.layer_stack ≡ j =
      ground (arith, t.stacked.places mouse other, passed, size, d.inside, d.above) in
    record {
      sound = t.sound;
      place =
          height-pos r id (omega (arith, lands, t.stacked.size, size, d.inside))
          ∙ ap pos (lands ∙ refl)
          ∙ sym (below-pos j d.above)
          ∙ ap below (
              sym (
                height-pos r mouse (omega (arith, mouse_at, t.stacked.size, size, d.inside))
                ∙ ap pos mouse_at));
      shown = ground (arith, t.stacked.counts id);
      order = t.stacked.others ∙ d.moved.stacked.others;
      same_layers = t.same_layers ∙ d.moved.same_layers;
    }

-- A layer that is there and is not the mouse's, while the mouse's is shown, is raised to the place
-- directly below the mouse; the other layers keep their order.
pub raise_lem :
    (m : LayerManager) (id mouse : ℕ) {l : Layer}
    → IsSound m
    → find_layer id m.layers ≡ some l
    → id ≢ mouse
    → count mouse m.layer_stack ≡ 1
    → Returns (raise m id mouse) (IsRaised m id mouse)
unfolding raise
raise_lem m id mouse {l} k found other shown =
    Returns->>= (up_down m id (pos 0)) _ (IsMoved m id 0) (IsRaised m id mouse)
      (up_down_lem m id 0 k found)
      (λ low t.
        let j : ℕ = find_index mouse low.layer_stack in
        let d = up_down-IsLowered m low id mouse t other shown in
        rw (height-pos low mouse d.inside, below-pos j d.above)
          (Returns_mono (up_down low id (pos (j - 1))) (IsMoved low id (j - 1))
            (IsRaised m id mouse) (λ r u. up_down-IsRaised m low r id mouse j other d u)
            (up_down_lem low id (j - 1) t.sound (ap (find_layer id) t.same_layers ∙ found))))
