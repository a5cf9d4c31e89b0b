-- ===== src/Keyboard/Tests.antt =====
-- The keys A and B are pressed, and then only B is held, with Shift.
use mikanos.Prelude.{ℕ, ◌≡◌, refl, true, some, [], ◌∷◌, ◌==◌, map, if◌then◌else◌, Returns}
use mikanos.Message.{key_push}
use mikanos.Prelude.Int.{pos}
use mikanos.Task.Context.{zero_context}
use mikanos.Task.State.{Task, TaskManager, fresh_task, find_task, update_task}
use mikanos.Task.Switch.{init_manager}
use mikanos.Task.Invariant.{IsValid}
use mikanos.Task.History.{init-IsValid}
use mikanos.Keyboard.{HidKeyboardDriver, notify_keys, on_data_received, key_message}
use mikanos.Keyboard.Post.{run_reports, IsTold, run_reports-IsTold}

abbrev boot : TaskManager
boot = init_manager (record { cr3 = 4096; stack_end = 65535 }) 1000

abbrev main_task : Task
main_task = record {
  id = 1;
  context = zero_context;
  os_stack_ptr = 0;
  msgs = [];
  level = 3;
  running = true;
  dpaging_begin = 0;
  dpaging_end = 0;
  file_map_end = 0;
  file_maps = [];
}

boot-IsValid : IsValid boot
boot-IsValid = init-IsValid (record { cr3 = 4096; stack_end = 65535 }) 1000

main_found : find_task 1 boot.tasks ≡ some main_task
unfolding init_manager fresh_task find_task update_task zero_context
main_found = refl

abbrev idle_keyboard : HidKeyboardDriver
idle_keyboard = record { buf = λ i. 0; previous_buf = λ i. 0 }

abbrev both_keys : ℕ → ℕ
both_keys i = if i == 2 then 4 else if i == 3 then 5 else 0

abbrev only_b : ℕ → ℕ
only_b i = if i == 0 then 2 else if i == 2 then 5 else 0

-- A is released, under Shift.
release_a :
    map
      (λ e. (key_message e).arg)
      (on_data_received (record { buf = only_b; previous_buf = both_keys }))
    ≡ key_push 2 4 65 (pos 0) ∷ []
unfolding on_data_received notify_keys
release_a = refl

run_reports-IsTold_example :
    Returns
      (run_reports boot idle_keyboard (both_keys ∷ only_b ∷ []))
      (λ (t, k'). IsTold boot main_task (λ i. 0) (both_keys ∷ only_b ∷ []) t)
run_reports-IsTold_example =
    run_reports-IsTold boot main_task idle_keyboard (both_keys ∷ only_b ∷ []) boot-IsValid
      main_found
