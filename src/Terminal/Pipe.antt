-- ===== src/Terminal/Pipe.antt =====
-- `PipeDescriptor` of src/kernel/terminal.hpp and terminal.cpp: the pipe between two commands. The writer
-- sends messages of at most 16 bytes to the reader's task; the reader keeps the rest of a message.
pub mod Stream
pub mod Read
pub mod Send
pub mod Write
pub mod Drain
pub mod Tests
use mikanos.Prelude.{
  ℕ, zero, suc, ◌+◌, ◌-◌, min, Bool, true, false, Option, none, some, List, [], ◌∷◌, ◌++◌, ◌==◌,
  ltb, take, drop, if◌then◌else◌, ◌>>=◌,
}
use mathlib.Core.Option
use mikanos.Message.{Message, MessageArg, pipe}
use mikanos.Task.State.{TaskManager}
use mikanos.Task.Sleep.{task_send_message}

-- `sizeof(msg.arg.pipe.data)`, and the size of `data_`
abbrev pub pipe_size : ℕ
pipe_size = 16

-- `memcpy` of `n` bytes to the start of an array
abbrev pub memcpy : List ℕ → List ℕ → ℕ → List ℕ
memcpy dst src n = take n src ++ drop n dst

pub record PipeDescriptor : Type 0 where
  pub task : ℕ
  pub bytes : List ℕ
  pub len : ℕ
  pub closed : Bool

-- `msg->type != Message::kPipe`, with the member of the union that belongs to it
abbrev pub as_pipe : MessageArg → Option (List ℕ × ℕ)
as_pipe (pipe bytes len) = some (bytes, len)
as_pipe _ = none

-- How a call of `Read` goes on: the task sleeps until a message comes, and then the loop looks again; or
-- the call returns, with what the buffer holds and how many bytes were copied.
pub data Outcome : Type 0 where
  waits : Outcome
  returned : (buf : List ℕ) (copied : ℕ) → Outcome

-- `copy_bytes` of `k` bytes go to the buffer, and the rest to `data_`.
abbrev pub hand_out : PipeDescriptor → List ℕ → List ℕ → ℕ → ℕ → PipeDescriptor × Outcome
hand_out p buf src k len =
    let copy_bytes = min k len in
    (
      record p {
        bytes = memcpy p.bytes (drop copy_bytes src) (k - copy_bytes);
        len = k - copy_bytes;
      },
      returned (memcpy buf src copy_bytes) copy_bytes,
    )

-- The loop of `Read` over the messages of the task.
unfoldable pub read_messages :
    PipeDescriptor → List ℕ → ℕ → List Message → List Message × (PipeDescriptor × Outcome)
read_messages p buf len [] = ([], (p, waits))
read_messages p buf len (msg ∷ msgs) = elim (as_pipe msg.arg) [
  | none ↦ read_messages p buf len msgs
  | some (bytes, k) ↦
      if k == 0
      then (msgs, (record p { closed = true }, returned buf 0))
      else (msgs, hand_out p buf bytes k len)
]

-- `Read`
unfoldable pub read :
    PipeDescriptor → List ℕ → ℕ → List Message → List Message × (PipeDescriptor × Outcome)
unfolding read_messages
read p buf len msgs =
    if ltb 0 p.len
    then (msgs, hand_out p buf p.bytes p.len len)
    else if p.closed
    then (msgs, (p, returned buf 0))
    else read_messages p buf len msgs

-- The loop of `Write`, with `rounds` rounds left; `bytes` is what the array of the message holds.
unfoldable pub write_loop : ℕ → TaskManager → ℕ → List ℕ → ℕ → ℕ → List ℕ → Option TaskManager
unfolding task_send_message
write_loop zero s task buf len sent_bytes bytes = if ltb sent_bytes len then none else some s
write_loop (suc rounds) s task buf len sent_bytes bytes =
    let n = min (len - sent_bytes) pipe_size in
    let bytes' = memcpy bytes (drop sent_bytes buf) n in
    let s' = task_send_message s task (record { src_task = 0; arg = pipe bytes' n }) in
    if ltb sent_bytes len
    then s' >>= (λ t. write_loop rounds t task buf len (sent_bytes + n) bytes')
    else some s

-- `Write`. A round sends at least one byte, so there are at most `len` rounds.
unfoldable pub write : TaskManager → PipeDescriptor → List ℕ → ℕ → List ℕ → Option (TaskManager × ℕ)
unfolding write_loop
write s p buf len bytes = Option.map (λ t. (t, len)) (write_loop len s p.task buf len 0 bytes)

-- `FinishWrite`
unfoldable pub finish_write : TaskManager → PipeDescriptor → List ℕ → Option TaskManager
unfolding task_send_message
finish_write s p bytes = task_send_message s p.task (record { src_task = 0; arg = pipe bytes 0 })
