-- ===== src/Terminal/Pipe/Tests.antt =====
-- A pipe to task 3, with a part of a message left, and a key in between.
use mikanos.Prelude.{
  ℕ, ◌>>=◌, ◌≡◌, refl, true, false, some, [], ◌∷◌, ◌++◌, take, arith, List, Returns,
}
use mikanos.Prelude.Int.{pos}
use mikanos.Message.{Message, key_push, pipe}
use mikanos.Task.Context.{zero_context, Machine}
use mikanos.Task.State.{Task, TaskManager, fresh_task, find_task, update_task, new_task}
use mikanos.Task.Switch.{init_manager}
use mikanos.Task.Invariant.{IsValid}
use mikanos.Task.History.{init-IsValid, new_task-IsValid}
use mikanos.Terminal.Pipe.{PipeDescriptor, returned, read_messages, read, write, finish_write}
use mikanos.Terminal.Pipe.Stream.{contents, IsPipe}
use mikanos.Terminal.Pipe.Read.{IsAnswer, read-IsAnswer}
use mikanos.Terminal.Pipe.Drain.{read_all, read_all-write}
use mikanos.Terminal.Pipe.Write.{IsQueued, write_lem}

abbrev machine : Machine
machine = record { cr3 = 4096; stack_end = 65535 }

abbrev boot : TaskManager
boot = init_manager machine 1000

abbrev three : TaskManager
three = new_task boot

abbrev reader : Task
reader = record {
  id = 3;
  context = zero_context;
  os_stack_ptr = 0;
  msgs = [];
  level = 1;
  running = false;
  dpaging_begin = 0;
  dpaging_end = 0;
  file_map_end = 0;
  file_maps = [];
}

three-IsValid : IsValid three
unfolding init_manager
three-IsValid = new_task-IsValid boot (omega arith) (init-IsValid machine 1000)

reader_found : find_task 3 three.tasks ≡ some reader
unfolding init_manager new_task fresh_task find_task update_task zero_context
reader_found = refl

abbrev sixteen : List ℕ
sixteen = 1 ∷ 2 ∷ 3 ∷ 4 ∷ 5 ∷ 6 ∷ 7 ∷ 8 ∷ 9 ∷ 10 ∷ 11 ∷ 12 ∷ 13 ∷ 14 ∷ 15 ∷ 16 ∷ []

abbrev half_read : PipeDescriptor
half_read = record { task = 3; bytes = sixteen; len = 2; closed = false }

abbrev fresh_pipe : PipeDescriptor
fresh_pipe = record { task = 3; bytes = sixteen; len = 0; closed = false }

-- A key, five bytes, and the end.
abbrev three_messages : List Message
three_messages =
    record { src_task = 0; arg = key_push 0 4 97 (pos 1) }
    ∷ record { src_task = 0; arg = pipe sixteen 5 }
    ∷ record { src_task = 0; arg = pipe sixteen 0 }
    ∷ []

half-IsPipe : IsPipe half_read []
half-IsPipe = record { size = refl; fits = omega arith; blocks = tt }

fresh-IsPipe : IsPipe fresh_pipe three_messages
fresh-IsPipe = record {
  size = refl;
  fits = omega arith;
  blocks = (tt, ((refl, omega arith), ((refl, omega arith), tt)));
}

-- The first four of the five bytes are copied; one is kept.
read_four : read fresh_pipe (0 ∷ 0 ∷ 0 ∷ 0 ∷ []) 4 three_messages ≡ (
  record { src_task = 0; arg = pipe sixteen 0 } ∷ [],
  (
    record fresh_pipe {
      bytes = 5 ∷ 2 ∷ 3 ∷ 4 ∷ 5 ∷ 6 ∷ 7 ∷ 8 ∷ 9 ∷ 10 ∷ 11 ∷ 12 ∷ 13 ∷ 14 ∷ 15 ∷ 16 ∷ [];
      len = 1;
    },
    returned (1 ∷ 2 ∷ 3 ∷ 4 ∷ []) 4,
  ),
)
unfolding read read_messages
read_four = refl

read-IsAnswer_example :
    IsAnswer
      (1 ∷ 2 ∷ 3 ∷ 4 ∷ 5 ∷ [])
      true
      (0 ∷ 0 ∷ 0 ∷ 0 ∷ [])
      4
      (read fresh_pipe (0 ∷ 0 ∷ 0 ∷ 0 ∷ []) 4 three_messages)
read-IsAnswer_example = read-IsAnswer fresh_pipe (0 ∷ 0 ∷ 0 ∷ 0 ∷ []) 4 three_messages fresh-IsPipe

-- Two of the bytes that are left, and eighteen more.
write_example : Returns (write three half_read (sixteen ++ (17 ∷ 18 ∷ [])) 18 sixteen) (λ (t, n).
    (n ≡ 18)
    × IsQueued three half_read
        (contents half_read [] ++ take 18 (sixteen ++ (17 ∷ 18 ∷ [])))
        false
        t)
write_example =
    write_lem three half_read reader (sixteen ++ (17 ∷ 18 ∷ [])) sixteen 18 three-IsValid
      reader_found half-IsPipe refl (omega arith) refl

read_all-write_example :
    Returns
      (write three half_read (sixteen ++ (17 ∷ 18 ∷ [])) 18 sixteen
        >>= (λ (t, n). finish_write t half_read sixteen))
      (λ t.
        (v : Task) × (find_task 3 t.tasks ≡ some v)
        × (read_all 30 4 half_read [] v.msgs ≡ some (1 ∷ 2 ∷ sixteen ++ (17 ∷ 18 ∷ []))))
read_all-write_example =
    read_all-write three half_read reader (sixteen ++ (17 ∷ 18 ∷ [])) sixteen [] 18 4 30
      three-IsValid reader_found half-IsPipe refl (omega arith) refl (omega arith) (omega arith)
