-- ===== src/Layer/Close.antt =====
-- `CloseLayer`: nothing of the layer is left.
use mikanos.Prelude.{
  ℕ, ◌<◌, ◌≡◌, refl, sym, ◌∙◌, ap, none, some, List, [], ◌∷◌, arith, ◌==◌, if◌then◌else◌, count,
  Returns, Returns->>=, Returns-map, Bool-cases, inl, inr, subst,
}
use mikanos.Prelude.Dict
use mikanos.Error.{Error, success}
use mikanos.Task.Invariant.{IsValid}
use mikanos.Layer.{
  Layer, LayerManager, find_layer, erase_layers, hide, remove_layer, ActiveLayer, deactivate,
  become_active, activate, drop_layer, close_layer,
}
use mikanos.Layer.Stack.{count-erase_first}
use mikanos.Layer.Height.{IsSound}
use mikanos.Layer.Active.{HasWindow, IsDeactivated, deactivate_lem}

find_layer-erase_layers :
    (id other : ℕ) (layers : List Layer)
    → find_layer other (erase_layers id layers)
      ≡ (if id == other then none else find_layer other layers)
unfolding find_layer erase_layers
find_layer-erase_layers id other [] = ground arith
find_layer-erase_layers id other (l ∷ layers) =
    ground (arith, find_layer-erase_layers id other layers)

-- What `RemoveLayer` leaves of a layer that is there.
record IsRemoved (id : ℕ) (r : LayerManager) : Type 0 where
  sound : IsSound r
  gone : find_layer id r.layers ≡ none
  hidden : count id r.layer_stack ≡ 0

remove_layer_lem :
    (m : LayerManager) (id : ℕ) (l : Layer)
    → IsSound m
    → find_layer id m.layers ≡ some l
    → IsRemoved id (remove_layer m id)
unfolding remove_layer hide
remove_layer_lem m id l k found =
    rw (found, remove_layer, hide)
      (record {
        sound = record {
          once = λ other. ground (arith, count-erase_first id other m.layer_stack, k.once other);
          there = λ other e. ground (
            arith,
            count-erase_first id other m.layer_stack,
            k.once other,
            k.there other,
            find_layer-erase_layers id other m.layers,
            e,
          );
        };
        gone = find_layer-erase_layers id id m.layers ∙ ground arith;
        hidden = ground (arith, count-erase_first id id m.layer_stack, k.once id);
      })

-- `Activate(0)`: no layer is active.
record IsInactive (a r : ActiveLayer) : Type 0 where
  tasks : IsValid r.tasks
  same_manager : r.manager ≡ a.manager
  inactive : r.active_layer ≡ 0

activate-zero :
    (a : ActiveLayer)
    → IsValid a.tasks
    → (0 < a.active_layer → HasWindow a.manager a.active_layer)
    → Returns (activate a 0) (IsInactive a)
unfolding activate become_active
activate-zero a v old = elim (Bool-cases (a.active_layer == 0)) [
  | inl already ↦ rw already (record { tasks = v; same_manager = refl; inactive = ground arith })
  | inr other ↦ rw other (
      Returns->>= (deactivate a) _ (IsDeactivated a) (IsInactive a) (deactivate_lem a v old)
        (λ b d. record { tasks = d.tasks; same_manager = d.same_manager; inactive = refl }))
]

-- How `CloseLayer` of a layer that is there ends.
pub record IsClosed (a : ActiveLayer) (id : ℕ) (r : ActiveLayer × Error) : Type 0 where
  pub done : r.1 ≡ success
  pub tasks : IsValid r.0.tasks
  pub inactive : r.0.active_layer ≡ 0
  pub sound : IsSound r.0.manager
  pub gone : find_layer id r.0.manager.layers ≡ none
  pub hidden : count id r.0.manager.layer_stack ≡ 0
  pub unmapped : Dict.lookup id r.0.layer_task_map ≡ none

-- In a sound manager with valid tasks, when the active layer, if any, has a window, `CloseLayer` of
-- a layer with a window succeeds. Afterwards no layer is active, the layer is neither among the
-- layers nor in the stack, no task belongs to it, and manager and tasks are as sound as before.
pub close_layer_lem :
    (a : ActiveLayer) (id : ℕ)
    → IsValid a.tasks
    → IsSound a.manager
    → (0 < a.active_layer → HasWindow a.manager a.active_layer)
    → HasWindow a.manager id
    → Returns (close_layer a id) (IsClosed a id)
unfolding close_layer drop_layer
close_layer_lem a id v sound old (l, w, found, window) =
    rw (found, window, close_layer)
      (Returns-map (activate a 0) _ (IsInactive a) (IsClosed a id) (activate-zero a v old) (λ b k.
        let removed =
          remove_layer_lem b.manager id l (subst (λ x. IsSound x) (sym k.same_manager) sound)
            (ap (λ x. find_layer id x.layers) k.same_manager ∙ found) in
        record {
          done = refl;
          tasks = k.tasks;
          inactive = k.inactive;
          sound = removed.sound;
          gone = removed.gone;
          hidden = removed.hidden;
          unmapped = Dict.lookup-erase id id b.layer_task_map ∙ ground arith;
        }))
