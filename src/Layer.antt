-- ===== src/Layer.antt =====
-- src/kernel/layer.hpp and layer.cpp: the layers, the stack in which they are drawn, and the active one.
-- A `Layer*` is the layer's id. What is drawn is a list of requests, in order.
pub mod Stack
pub mod Height
pub mod Raise
pub mod Active
pub mod Close
pub mod Tests
use mathlib.Core.Option
use mikanos.Prelude.{
  ℕ, zero, suc, ◌+◌, ◌-◌, ◌%◌, ◌^◌, min, Bool, true, false, Option, none, some, List, [], ◌∷◌, ◌++◌,
  ◌==◌, ltb, if◌then◌else◌, ◌>>=◌, length,
}
use mikanos.Prelude.Int.{ℤ, pos, negsuc}
use mikanos.Prelude.Dict
use mikanos.Error.{Error, success, no_such_task, no_such_entry}
use mikanos.Message.{Message, window_active}
use mikanos.Task.State.{TaskManager}
use mikanos.Task.Sleep.{send_message}

-- What the manager reads of a layer and of its window; `window` is the window's size.
pub record Layer : Type 0 where
  pub id : ℕ
  pub x : ℤ
  pub y : ℤ
  pub window : Option (ℕ × ℕ)
  pub draggable : Bool

pub record LayerManager : Type 0 where
  pub layers : List Layer
  pub layer_stack : List ℕ
  pub latest_id : ℕ

-- `NewLayer`; the new layer is the one with `latest_id`.
unfoldable pub new_layer : LayerManager → LayerManager
new_layer m =
    let id = (m.latest_id + 1) % 2 ^ 32 in
    record m {
      latest_id = id;
      layers =
          m.layers
          ++ record { id = id; x = pos 0; y = pos 0; window = none; draggable = false } ∷ [];
    }

unfoldable pub find_layer : ℕ → List Layer → Option Layer
find_layer id [] = none
find_layer id (l ∷ layers) = if l.id == id then some l else find_layer id layers

-- `EraseIf` on the layers
unfoldable pub erase_layers : ℕ → List Layer → List Layer
erase_layers id [] = []
erase_layers id (l ∷ layers) =
    if l.id == id then erase_layers id layers else l ∷ erase_layers id layers

-- `std::find` in the stack: the index found, or the length.
unfoldable pub find_index : ℕ → List ℕ → ℕ
find_index id [] = 0
find_index id (x ∷ stack) = if x == id then 0 else suc (find_index id stack)

-- `erase` at the index found; the end is not erased.
unfoldable pub erase_first : ℕ → List ℕ → List ℕ
erase_first id [] = []
erase_first id (x ∷ stack) = if x == id then stack else x ∷ erase_first id stack

-- `insert` at an index, up to the end.
unfoldable pub insert_at : ℕ → ℕ → List ℕ → List ℕ
insert_at zero id stack = id ∷ stack
insert_at (suc i) id [] = id ∷ []
insert_at (suc i) id (x ∷ stack) = x ∷ insert_at i id stack

-- `Hide`. Without such a layer the null pointer is searched for, which is not in the stack.
unfoldable pub hide : LayerManager → ℕ → LayerManager
unfolding find_layer erase_first
hide m id = elim (find_layer id m.layers) [
  | none ↦ m
  | some l ↦ record m { layer_stack = erase_first id m.layer_stack }
]

unfoldable pub remove_layer : LayerManager → ℕ → LayerManager
unfolding hide erase_layers
remove_layer m id = record (hide m id) { layers = erase_layers id (hide m id).layers }

-- The stack that `UpDown` leaves, for height `h` at most the length.
unfoldable pub restack : ℕ → ℕ → List ℕ → List ℕ
unfolding find_index erase_first insert_at
restack h id stack =
    if find_index id stack == length stack
    then insert_at h id stack
    else insert_at (if h == length stack then h - 1 else h) id (erase_first id stack)

-- `UpDown`. `none` is a null pointer that would come into the stack.
unfoldable pub up_down : LayerManager → ℕ → ℤ → Option LayerManager
unfolding hide restack find_layer
up_down m id (negsuc n) = some (hide m id)
up_down m id (pos new_height) =
    Option.map
      (λ l. record m {
        layer_stack = restack (min new_height (length m.layer_stack)) id m.layer_stack;
      })
      (find_layer id m.layers)

unfoldable pub get_height : LayerManager → ℕ → ℤ
unfolding find_index
get_height m id =
    if find_index id m.layer_stack == length m.layer_stack
    then negsuc 0
    else pos (find_index id m.layer_stack)

-- `n - 1` on `int`
abbrev pub below : ℤ → ℤ
below (pos zero) = negsuc 0
below (pos (suc n)) = pos n
below (negsuc n) = negsuc (suc n)

-- What `Activate` and `CloseLayer` do besides: window calls and redraws, in order.
pub data Paint : Type 0 where
  deactivate_window activate_window draw_layer : ℕ → Paint
  draw_area : (x y : ℤ) (width height : ℕ) → Paint

-- The active layer, with all that `Activate` works on.
pub record ActiveLayer : Type 0 where
  pub manager : LayerManager
  pub active_layer : ℕ
  pub mouse_layer : ℕ
  pub layer_task_map : List (ℕ × ℕ)
  pub tasks : TaskManager
  pub painted : List Paint

-- `SendWindowActiveMessage`
unfoldable pub send_window_active : ActiveLayer → ℕ → ℕ → Option (ActiveLayer × Error)
unfolding Dict.lookup send_message
send_window_active a layer_id activate = elim (Dict.lookup layer_id a.layer_task_map) [
  | none ↦ some (a, no_such_task)
  | some task ↦
      Option.map (λ r. (record a { tasks = r.0 }, r.1))
        (send_message a.tasks task (record { src_task = 0; arg = window_active (pos activate) }))
]

-- The window of a layer, through two pointers.
unfoldable pub layer_window : LayerManager → ℕ → Option (ℕ × ℕ)
unfolding find_layer
layer_window m id = find_layer id m.layers >>= λ l. l.window

-- `Activate`, for the layer that was active and for the one that becomes active.
unfoldable pub deactivate : ActiveLayer → Option ActiveLayer
unfolding layer_window send_window_active
deactivate a =
    if ltb 0 a.active_layer
    then (layer_window a.manager a.active_layer >>= λ w.
        Option.map (λ r. r.0)
          (send_window_active
            (record a {
              painted =
                  a.painted ++ deactivate_window a.active_layer ∷ draw_layer a.active_layer ∷ [];
            })
            a.active_layer 0))
    else some a

unfoldable pub raise : LayerManager → ℕ → ℕ → Option LayerManager
unfolding up_down get_height
raise m id mouse = up_down m id (pos 0) >>= λ low. up_down low id (below (get_height low mouse))

unfoldable pub become_active : ActiveLayer → ℕ → Option ActiveLayer
unfolding layer_window raise send_window_active
become_active a layer_id =
    if ltb 0 layer_id
    then (layer_window a.manager layer_id >>= λ w. raise a.manager layer_id a.mouse_layer >>= λ m.
        Option.map (λ r. r.0)
          (send_window_active
            (record a {
              manager = m;
              active_layer = layer_id;
              painted = a.painted ++ activate_window layer_id ∷ draw_layer layer_id ∷ [];
            })
            layer_id 1))
    else some (record a { active_layer = layer_id })

unfoldable pub activate : ActiveLayer → ℕ → Option ActiveLayer
unfolding deactivate become_active
activate a layer_id =
    if a.active_layer == layer_id then some a else (deactivate a >>= λ b. become_active b layer_id)

-- `CloseLayer`, between `cli` and `sti`: the layer `l` with a window of size `w` is gone.
unfoldable pub drop_layer : ActiveLayer → ℕ → Layer → ℕ × ℕ → ActiveLayer
unfolding remove_layer Dict.erase
drop_layer a layer_id l w = record a {
  manager = remove_layer a.manager layer_id;
  painted = a.painted ++ draw_area l.x l.y w.0 w.1 ∷ [];
  layer_task_map = Dict.erase layer_id a.layer_task_map;
}

unfoldable pub close_layer : ActiveLayer → ℕ → Option (ActiveLayer × Error)
unfolding activate drop_layer find_layer
close_layer a layer_id = elim (find_layer layer_id a.manager.layers) [
  | none ↦ some (a, no_such_entry)
  | some l ↦
      (l.window >>= λ w. Option.map (λ b. (drop_layer b layer_id l w, success)) (activate a 0))
]
