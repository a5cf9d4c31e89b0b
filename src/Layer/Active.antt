-- ===== src/Layer/Active.antt =====
-- `ActiveLayer::Activate`: the layer goes directly below the mouse, and the tasks are told.
use mikanos.Prelude.{
  ℕ, ◌<◌, ◌≡◌, ◌≢◌, refl, sym, ◌∙◌, ap, true, false, Option, none, some, List, [], ◌∷◌, ◌++◌, arith,
  ◌==◌, ltb, if◌then◌else◌, count, Returns, Returns->>=, Returns-map, Bool-cases, inl, inr, subst,
}
use mikanos.Prelude.Int.{pos}
use mikanos.Prelude.Dict
use mikanos.Error.{Error}
use mikanos.Message.{Message, window_active}
use mikanos.Task.State.{find_task}
use mikanos.Task.Sleep.{send_message}
use mikanos.Task.Invariant.{IsValid}
use mikanos.Task.Post.{IsSent, send_message_lem}
use mikanos.Task.History.{sent-IsValid}
use mikanos.Layer.{
  Layer, LayerManager, find_layer, raise, ActiveLayer, Paint, deactivate_window, activate_window,
  draw_layer, layer_window, send_window_active, deactivate, become_active, activate,
}
use mikanos.Layer.Height.{IsSound}
use mikanos.Layer.Raise.{IsRaised, raise_lem}

-- The task of a layer, if any, has been told: the error says whether there was such a task.
pub record IsTold (a : ActiveLayer) (r : ActiveLayer × Error) : Type 0 where
  pub tasks : IsValid r.0.tasks
  pub same_manager : r.0.manager ≡ a.manager
  pub same_active : r.0.active_layer ≡ a.active_layer
  pub same_mouse : r.0.mouse_layer ≡ a.mouse_layer
  pub same_painted : r.0.painted ≡ a.painted

pub send_window_active_lem :
    (a : ActiveLayer) (layer_id value : ℕ)
    → IsValid a.tasks
    → Returns (send_window_active a layer_id value) (IsTold a)
unfolding send_window_active
send_window_active_lem a layer_id value v = told (Dict.lookup layer_id a.layer_task_map) refl
  where
    told :
        (o : Option ℕ)
        → Dict.lookup layer_id a.layer_task_map ≡ o
        → Returns (send_window_active a layer_id value) (IsTold a)
    told none e =
        rw (e, send_window_active)
          (record {
            tasks = v;
            same_manager = refl;
            same_active = refl;
            same_mouse = refl;
            same_painted = refl;
          })
    told (some task) e =
        let msg : Message = record { src_task = 0; arg = window_active (pos value) } in
        rw (e, send_window_active)
          (Returns-map (send_message a.tasks task msg) _
            (IsSent a.tasks task msg (find_task task a.tasks.tasks)) (IsTold a)
            (send_message_lem a.tasks task msg v)
            (λ r k. record {
              tasks = sent-IsValid a.tasks task msg (find_task task a.tasks.tasks) r v k;
              same_manager = refl;
              same_active = refl;
              same_mouse = refl;
              same_painted = refl;
            }))

-- What has been painted once layer `old` is no longer active.
pub paint_left : ℕ → List Paint → List Paint
paint_left old painted =
    if ltb 0 old then painted ++ deactivate_window old ∷ draw_layer old ∷ [] else painted

-- The first half of `Activate`.
pub record IsDeactivated (a b : ActiveLayer) : Type 0 where
  pub tasks : IsValid b.tasks
  pub same_manager : b.manager ≡ a.manager
  pub same_mouse : b.mouse_layer ≡ a.mouse_layer
  pub painted : b.painted ≡ paint_left a.active_layer a.painted

-- A layer is there, with a window.
abbrev pub HasWindow : LayerManager → ℕ → Type 0
HasWindow m id = (l : Layer) × (w : ℕ × ℕ) × (find_layer id m.layers ≡ some l) × (l.window ≡ some w)

layer_window-some :
    (m : LayerManager) (id : ℕ) (l : Layer) (w : ℕ × ℕ)
    → find_layer id m.layers ≡ some l
    → l.window ≡ some w
    → layer_window m id ≡ some w
unfolding layer_window
layer_window-some m id l w found window = rw (found, window) refl

pub deactivate_lem :
    (a : ActiveLayer)
    → IsValid a.tasks
    → (0 < a.active_layer → HasWindow a.manager a.active_layer)
    → Returns (deactivate a) (IsDeactivated a)
unfolding deactivate layer_window paint_left
deactivate_lem a v h = elim (Bool-cases (ltb 0 a.active_layer)) [
  | inl some_active ↦
      let (l, w, found, window) = h (ground arith) in
      rw (some_active, found, window)
        (Returns-map (send_window_active _ a.active_layer 0) (λ r. r.0) (IsTold _) (IsDeactivated a)
          (send_window_active_lem _ a.active_layer 0 v)
          (λ r k. record {
            tasks = k.tasks;
            same_manager = k.same_manager;
            same_mouse = k.same_mouse;
            painted = k.same_painted ∙ rw some_active refl;
          }))
  | inr none_active ↦
      rw none_active (record {
        tasks = v;
        same_manager = refl;
        same_mouse = refl;
        painted = rw none_active refl;
      })
]

-- How `Activate` of another layer `id` ends: it is the active layer, directly below the mouse, the
-- tasks are valid, and both windows have been told and drawn.
pub record IsActivated (a : ActiveLayer) (id : ℕ) (r : ActiveLayer) : Type 0 where
  pub tasks : IsValid r.tasks
  pub active : r.active_layer ≡ id
  pub raised : IsRaised a.manager id a.mouse_layer r.manager
  pub painted :
      r.painted ≡ paint_left a.active_layer a.painted ++ activate_window id ∷ draw_layer id ∷ []

become_active_lem :
    (a b : ActiveLayer) (id : ℕ)
    → IsDeactivated a b
    → 0 < id
    → IsSound a.manager
    → HasWindow a.manager id
    → id ≢ a.mouse_layer
    → count a.mouse_layer a.manager.layer_stack ≡ 1
    → Returns (become_active b id) (IsActivated a id)
unfolding become_active
become_active_lem a b id d some_id sound (l, w, found, window) other shown =
    let open_window = layer_window-some a.manager id l w found window in
    let positive : ltb 0 id ≡ true = ground arith in
    rw (positive, d.same_manager, d.same_mouse, open_window)
      (Returns->>= (raise a.manager id a.mouse_layer) _ (IsRaised a.manager id a.mouse_layer)
        (IsActivated a id) (raise_lem a.manager id a.mouse_layer sound found other shown)
        (λ m k.
          Returns-map (send_window_active _ id 1) (λ r. r.0) (IsTold _) (IsActivated a id)
            (send_window_active_lem _ id 1 d.tasks)
            (λ r t. record {
              tasks = t.tasks;
              active = t.same_active;
              raised = subst (λ x. IsRaised a.manager id a.mouse_layer x) (sym t.same_manager) k;
              painted =
                  t.same_painted ∙ ap (λ p. p ++ activate_window id ∷ draw_layer id ∷ []) d.painted;
            })))

-- In a sound manager with valid tasks, `Activate` is defined for a layer with a window that is not
-- yet active and is not the mouse's, when the mouse's layer is shown and the active layer, if any,
-- has a window. The layer becomes active and stands directly below the mouse, the other layers keep
-- their order, the old active window is deactivated before the new one is activated, and the tasks
-- stay valid.
pub activate_lem :
    (a : ActiveLayer) (id : ℕ)
    → IsValid a.tasks
    → IsSound a.manager
    → (0 < a.active_layer → HasWindow a.manager a.active_layer)
    → 0 < id
    → id ≢ a.active_layer
    → HasWindow a.manager id
    → id ≢ a.mouse_layer
    → count a.mouse_layer a.manager.layer_stack ≡ 1
    → Returns (activate a id) (IsActivated a id)
unfolding activate
activate_lem a id v sound old some_id changes window other shown =
    let fresh : (a.active_layer == id) ≡ false = ground arith in
    rw fresh (
      Returns->>= (deactivate a) _ (IsDeactivated a) (IsActivated a id) (deactivate_lem a v old)
        (λ b d. become_active_lem a b id d some_id sound window other shown))
