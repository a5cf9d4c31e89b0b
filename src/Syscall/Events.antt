-- ===== src/Syscall/Events.antt =====
-- `ReadEvent` and `CreateTimer` of src/kernel/syscall.cpp, with src/kernel/app_event.hpp.
pub mod Queue
pub mod Tests
use mikanos.Prelude.{
  ℕ, zero, suc, ◌+◌, ◌*◌, ◌/◌, ◌%◌, ◌^◌, ◌-◌, bit_and, Bool, true, false, not, ◌&&◌, ◌||◌, Option,
  none, some, List, [], ◌∷◌, ◌++◌, ◌==◌, ltb, if◌then◌else◌, length,
}
use mikanos.Prelude.Int.{ℤ, pos, negsuc}
use mikanos.Message.{
  Message, MessageArg, key_push, mouse_move, mouse_button, timer_timeout, window_close,
}
use mikanos.Timer.{Timer, TimerManager, add_timer}
use mikanos.Syscall.{Errno, no_error, efault, einval, Result}

-- `AppEvent`, where the union is a sum
pub data AppEvent : Type 0 where
  quit : AppEvent
  mouse_moved : (x y dx dy : ℤ) (buttons : ℕ) → AppEvent
  mouse_pressed : (x y press button : ℤ) → AppEvent
  timer_ended : (timeout : ℕ) (value : ℤ) → AppEvent
  key_pushed : (modifier keycode ascii : ℕ) (press : ℤ) → AppEvent

-- `kLControlBitMask | kRControlBitMask`
abbrev pub control_bit_mask : ℕ
control_bit_mask = 1 + 16

-- `-value` of a value below 0, on 32 bits: the least value is its own opposite.
abbrev pub opposite : ℕ → ℤ
opposite n = if n == 2 ^ 31 - 1 then negsuc n else pos (n + 1)

-- The `switch` of `ReadEvent`; `none` is a message without an event.
abbrev pub to_app_event : MessageArg → Option AppEvent
to_app_event (key_push modifier keycode ascii press) =
    if keycode == 20 && not (bit_and modifier control_bit_mask == 0)
    then some quit
    else some (key_pushed modifier keycode ascii press)
to_app_event (mouse_move x y dx dy buttons) = some (mouse_moved x y dx dy buttons)
to_app_event (mouse_button x y press button) = some (mouse_pressed x y press button)
to_app_event (timer_timeout timeout (negsuc n)) = some (timer_ended timeout (opposite n))
to_app_event (window_close layer_id) = some quit
to_app_event _ = none

-- How a call goes on: the task sleeps until a message comes, and then the loop looks again; or the call
-- returns.
pub data ReadOutcome : Type 0 where
  sleeps : ReadOutcome
  returns : Result → ReadOutcome

-- The loop, where `events` have been stored; the messages that are left, and all events stored.
unfoldable pub read_events :
    ℕ → List AppEvent → List Message → List Message × (List AppEvent × ReadOutcome)
read_events len events [] =
    if ltb (length events) len && length events == 0
    then ([], (events, sleeps))
    else ([], (events, returns (record { value = length events; error = no_error })))
read_events len events (msg ∷ msgs) =
    if ltb (length events) len
    then (elim (to_app_event msg.arg) [
      | none ↦ read_events len events msgs
      | some e ↦ read_events len (events ++ e ∷ []) msgs
    ])
    else (msg ∷ msgs, (events, returns (record { value = length events; error = no_error })))

-- `ReadEvent`
unfoldable pub read_event :
    (app_events len : ℕ) → List Message → List Message × (List AppEvent × ReadOutcome)
unfolding read_events
read_event app_events len msgs =
    if ltb app_events (2 ^ 63)
    then (msgs, ([], returns (record { value = 0; error = efault })))
    else read_events len [] msgs

-- `kTimerFreq`
abbrev pub timer_freq : ℕ
timer_freq = 100

-- `CreateTimer`, for the current task `task_id`
unfoldable pub create_timer : TimerManager → (task_id mode value time : ℕ) → TimerManager × Result
unfolding add_timer
create_timer m task_id mode value time =
    let timer_value = value % 2 ^ 32 in
    if timer_value == 0 || ltb (2 ^ 31 - 1) timer_value
    then (m, record { value = 0; error = einval })
    else (let span = time * timer_freq % 2 ^ 64 / 1000 in
        let timeout = if bit_and (mode % 2 ^ 32) 1 == 0 then span else (span + m.tick) % 2 ^ 64 in
        (
          add_timer m
              (record { timeout = timeout; value = negsuc (timer_value - 1); task_id = task_id }),
          record { value = timeout * 1000 % 2 ^ 64 / timer_freq; error = no_error },
        ))
