-- ===== src/Task/Lookup.antt =====
-- Finding a task by its id after the list of tasks has changed.
use mathlib.Core.Option
use mikanos.Prelude.{ℕ, ◌≡◌, refl, none, some, List, [], ◌∷◌, ◌++◌, arith, ◌==◌, if◌then◌else◌}
use mikanos.Task.State.{Task, find_task, update_task, erase_task}

pub find_task-id : (id : ℕ) (ts : List Task) (t : Task) → find_task id ts ≡ some t → t.id ≡ id
unfolding find_task
find_task-id id [] t e = cc
find_task-id id (u ∷ ts) t e = ground (arith, find_task-id id ts t)

-- A change that keeps the id.
pub find_task-update :
    (i j : ℕ) (f : Task → Task) (ts : List Task)
    → ((t : Task) → (f t).id ≡ t.id)
    → find_task j (update_task i f ts)
      ≡ (if i == j then Option.map f (find_task j ts) else find_task j ts)
unfolding find_task update_task
find_task-update i j f [] same = ground arith
find_task-update i j f (t ∷ ts) same = ground (arith, same t, find_task-update i j f ts same)

pub find_task-append :
    (j : ℕ) (ts : List Task) (t : Task)
    → find_task j ts ≡ none
    → find_task j (ts ++ t ∷ []) ≡ (if t.id == j then some t else none)
unfolding find_task
find_task-append j [] t e = refl
find_task-append j (u ∷ ts) t e = ground (arith, find_task-append j ts t)

pub find_task-append_some :
    (j : ℕ) (ts : List Task) (t u : Task)
    → find_task j ts ≡ some u
    → find_task j (ts ++ t ∷ []) ≡ some u
unfolding find_task
find_task-append_some j [] t u e = cc
find_task-append_some j (v ∷ ts) t u e = ground (arith, find_task-append_some j ts t u)

-- No two tasks have one id.
abbrev pub Distinct : List Task → Type 0
Distinct [] = Unit
Distinct (t ∷ ts) = (find_task t.id ts ≡ none) × Distinct ts

find_task-erase_none :
    (i j : ℕ) (ts : List Task) → find_task j ts ≡ none → find_task j (erase_task i ts) ≡ none
unfolding find_task erase_task
find_task-erase_none i j [] e = refl
find_task-erase_none i j (t ∷ ts) e = ground (arith, find_task-erase_none i j ts)

pub find_task-erase :
    (i j : ℕ) (ts : List Task)
    → Distinct ts
    → find_task j (erase_task i ts) ≡ (if i == j then none else find_task j ts)
unfolding find_task erase_task
find_task-erase i j [] d = ground arith
find_task-erase i j (t ∷ ts) (d, ds) = ground (arith, find_task-erase i j ts ds)

pub erase-Distinct : (i : ℕ) (ts : List Task) → Distinct ts → Distinct (erase_task i ts)
unfolding find_task erase_task
erase-Distinct i [] d = tt
erase-Distinct i (t ∷ ts) (d, ds) =
    ground (arith, erase-Distinct i ts ds, find_task-erase_none i t.id ts d)

pub update-Distinct :
    (i : ℕ) (f : Task → Task) (ts : List Task)
    → ((t : Task) → (f t).id ≡ t.id)
    → Distinct ts
    → Distinct (update_task i f ts)
unfolding update_task
update-Distinct i f [] same d = tt
update-Distinct i f (t ∷ ts) same (d, ds) =
    ground (arith, same t, update-Distinct i f ts same ds, find_task-update i t.id f ts same)

pub append-Distinct :
    (ts : List Task) (t : Task) → find_task t.id ts ≡ none → Distinct ts → Distinct (ts ++ t ∷ [])
unfolding find_task
append-Distinct [] t e d = (refl, tt)
append-Distinct (u ∷ ts) t e (d, ds) =
    ground (arith, append-Distinct ts t, ds, find_task-append u.id ts t d)
