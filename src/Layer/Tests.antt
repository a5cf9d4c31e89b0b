-- ===== src/Layer/Tests.antt =====
-- Three windows and the mouse: layer 2 is activated while layer 4 is active.
use mikanos.Prelude.{ℕ, ◌≡◌, refl, true, some, [], ◌∷◌, arith, Returns}
use mikanos.Prelude.Int.{pos}
use mikanos.Task.Switch.{init_manager}
use mikanos.Task.History.{init-IsValid}
use mikanos.Layer.{
  Layer, LayerManager, ActiveLayer, find_layer, find_index, erase_first, insert_at, restack,
  up_down, activate, close_layer,
}
use mikanos.Layer.Height.{IsSound, IsMoved, up_down_lem}
use mikanos.Layer.Active.{IsActivated, activate_lem}
use mikanos.Layer.Close.{IsClosed, close_layer_lem}

abbrev window_layer : ℕ → Layer
window_layer id = record {
  id = id;
  x = pos 10;
  y = pos 20;
  window = some (80, 40);
  draggable = true;
}

abbrev screen : LayerManager
screen = record {
  layers = window_layer 1 ∷ window_layer 2 ∷ window_layer 3 ∷ window_layer 4 ∷ [];
  layer_stack = 1 ∷ 2 ∷ 4 ∷ 3 ∷ [];
  latest_id = 4;
}

screen-IsSound : IsSound screen
unfolding find_layer
screen-IsSound = record { once = λ id. ground arith; there = λ id e. ground arith }

second : find_layer 2 screen.layers ≡ some (window_layer 2)
unfolding find_layer
second = refl

fourth : find_layer 4 screen.layers ≡ some (window_layer 4)
unfolding find_layer
fourth = refl

-- A height past the top puts the layer on the top.
up_down-top : up_down screen 2 (pos 9) ≡ some (record screen { layer_stack = 1 ∷ 4 ∷ 3 ∷ 2 ∷ [] })
unfolding up_down restack find_layer find_index erase_first insert_at
up_down-top = refl

up_down_example : Returns (up_down screen 2 (pos 9)) (IsMoved screen 2 9)
up_down_example = up_down_lem screen 2 9 screen-IsSound second

abbrev focus : ActiveLayer
focus = record {
  manager = screen;
  active_layer = 4;
  mouse_layer = 3;
  layer_task_map = (2, 1) ∷ [];
  tasks = init_manager (record { cr3 = 4096; stack_end = 65535 }) 1000;
  painted = [];
}

activate_example : Returns (activate focus 2) (IsActivated focus 2)
activate_example =
    activate_lem focus 2 (init-IsValid (record { cr3 = 4096; stack_end = 65535 }) 1000)
      screen-IsSound (λ _. (window_layer 4, (80, 40), fourth, refl)) (omega arith) (omega arith)
      (window_layer 2, (80, 40), second, refl) (omega arith) refl

close_layer_example : Returns (close_layer focus 4) (IsClosed focus 4)
close_layer_example =
    close_layer_lem focus 4 (init-IsValid (record { cr3 = 4096; stack_end = 65535 }) 1000)
      screen-IsSound (λ _. (window_layer 4, (80, 40), fourth, refl))
      (window_layer 4, (80, 40), fourth, refl)
