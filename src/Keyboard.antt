-- ===== src/Keyboard.antt =====
-- src/kernel/usb/classdriver/hid.cpp and keyboard.cpp, and src/kernel/keyboard.cpp: from the reports of a
-- keyboard to the messages of the main task.
pub mod Track
pub mod Post
pub mod Tests
use mikanos.Prelude.{
  ℕ, zero, suc, ◌+◌, bit_and, bit_or, Bool, true, false, not, ◌&&◌, Option, none, some, List, [],
  ◌∷◌, ◌++◌, ◌==◌, ltb, get_or, if◌then◌else◌, ◌>>=◌,
}
use mikanos.Prelude.Int.{pos}
use mathlib.Core.Option
use mikanos.Error.{Error}
use mikanos.Message.{Message, key_push}
use mikanos.Task.State.{TaskManager}
use mikanos.Task.Sleep.{send_message}

-- `buf_` and `previous_buf_`, by index
pub record HidKeyboardDriver : Type 0 where
  pub buf : ℕ → ℕ
  pub previous_buf : ℕ → ℕ

-- A call of the observer
pub record KeyPush : Type 0 where
  pub modifier : ℕ
  pub keycode : ℕ
  pub press : Bool

-- The loop that fills a `std::bitset`, with `rounds` bytes left.
abbrev pub set_keys : ℕ → (ℕ → ℕ) → ℕ → (ℕ → Bool) → ℕ → Bool
set_keys zero buf i keys = keys
set_keys (suc rounds) buf i keys =
    set_keys rounds buf (i + 1) (λ key. if key == buf i then true else keys key)

-- The keys of a report: bytes 2 to 7
abbrev pub keys_of : (ℕ → ℕ) → ℕ → Bool
keys_of buf = set_keys 6 buf 2 (λ key. false)

-- `^` on two bits
abbrev pub xor : Bool → Bool → Bool
xor true b = not b
xor false b = b

-- The loop over the keys, with `rounds` keys left.
unfoldable pub notify_keys : ℕ → ℕ → (changed pressed : ℕ → Bool) → ℕ → List KeyPush
notify_keys zero modifier changed pressed key = []
notify_keys (suc rounds) modifier changed pressed key =
    let rest = notify_keys rounds modifier changed pressed (key + 1) in
    if changed key
    then record { modifier = modifier; keycode = key; press = pressed key } ∷ rest
    else rest

-- `OnDataReceived`
unfoldable pub on_data_received : HidKeyboardDriver → List KeyPush
on_data_received k =
    let changed : ℕ → Bool = λ key. xor (keys_of k.previous_buf key) (keys_of k.buf key) in
    let pressed : ℕ → Bool = λ key. changed key && keys_of k.buf key in
    notify_keys 255 (k.buf 0) changed pressed 1

-- `OnInterruptCompleted` of the base class; `err` is what `InterruptIn` returns, which asks for the next
-- report.
unfoldable pub on_interrupt_completed :
    HidKeyboardDriver → Bool → ℕ → Error → HidKeyboardDriver × (List KeyPush × Error)
on_interrupt_completed k is_in len err =
    if is_in
    then (
      record k { previous_buf = λ i. if ltb i len then k.buf i else k.previous_buf i },
      (on_data_received k, err),
    )
    else (k, ([], Error.not_implemented))

-- `keycode_map` and `keycode_map_shifted`, up to the last code that is not 0
abbrev pub keycode_map : List ℕ
keycode_map =
    0 ∷ 0 ∷ 0 ∷ 0 ∷ 97 ∷ 98 ∷ 99 ∷ 100 ∷ 101 ∷ 102 ∷ 103 ∷ 104 ∷ 105 ∷ 106 ∷ 107 ∷ 108 ∷ 109 ∷ 110
    ∷ 111 ∷ 112 ∷ 113 ∷ 114 ∷ 115 ∷ 116 ∷ 117 ∷ 118 ∷ 119 ∷ 120 ∷ 121 ∷ 122 ∷ 49 ∷ 50 ∷ 51 ∷ 52 ∷ 53
    ∷ 54 ∷ 55 ∷ 56 ∷ 57 ∷ 48 ∷ 10 ∷ 8 ∷ 8 ∷ 9 ∷ 32 ∷ 45 ∷ 61 ∷ 91 ∷ 93 ∷ 92 ∷ 35 ∷ 59 ∷ 39 ∷ 96 ∷ 44
    ∷ 46 ∷ 47 ∷ 0 ∷ 0 ∷ 0 ∷ 0 ∷ 0 ∷ 0 ∷ 0 ∷ 0 ∷ 0 ∷ 0 ∷ 0 ∷ 0 ∷ 0 ∷ 0 ∷ 0 ∷ 0 ∷ 0 ∷ 0 ∷ 0 ∷ 0 ∷ 0
    ∷ 0 ∷ 0 ∷ 0 ∷ 0 ∷ 0 ∷ 0 ∷ 47 ∷ 42 ∷ 45 ∷ 43 ∷ 10 ∷ 49 ∷ 50 ∷ 51 ∷ 52 ∷ 53 ∷ 54 ∷ 55 ∷ 56 ∷ 57
    ∷ 48 ∷ 46 ∷ 92 ∷ 0 ∷ 0 ∷ 61 ∷ []

abbrev pub keycode_map_shifted : List ℕ
keycode_map_shifted =
    0 ∷ 0 ∷ 0 ∷ 0 ∷ 65 ∷ 66 ∷ 67 ∷ 68 ∷ 69 ∷ 70 ∷ 71 ∷ 72 ∷ 73 ∷ 74 ∷ 75 ∷ 76 ∷ 77 ∷ 78 ∷ 79 ∷ 80
    ∷ 81 ∷ 82 ∷ 83 ∷ 84 ∷ 85 ∷ 86 ∷ 87 ∷ 88 ∷ 89 ∷ 90 ∷ 33 ∷ 64 ∷ 35 ∷ 36 ∷ 37 ∷ 94 ∷ 38 ∷ 42 ∷ 40
    ∷ 41 ∷ 10 ∷ 8 ∷ 8 ∷ 9 ∷ 32 ∷ 95 ∷ 43 ∷ 123 ∷ 125 ∷ 124 ∷ 126 ∷ 58 ∷ 34 ∷ 126 ∷ 60 ∷ 62 ∷ 63 ∷ 0
    ∷ 0 ∷ 0 ∷ 0 ∷ 0 ∷ 0 ∷ 0 ∷ 0 ∷ 0 ∷ 0 ∷ 0 ∷ 0 ∷ 0 ∷ 0 ∷ 0 ∷ 0 ∷ 0 ∷ 0 ∷ 0 ∷ 0 ∷ 0 ∷ 0 ∷ 0 ∷ 0 ∷ 0
    ∷ 0 ∷ 0 ∷ 47 ∷ 42 ∷ 45 ∷ 43 ∷ 10 ∷ 49 ∷ 50 ∷ 51 ∷ 52 ∷ 53 ∷ 54 ∷ 55 ∷ 56 ∷ 57 ∷ 48 ∷ 46 ∷ 92 ∷ 0
    ∷ 0 ∷ 61 ∷ []

-- `kLShiftBitMask | kRShiftBitMask`
abbrev pub shift_bit_mask : ℕ
shift_bit_mask = 2 + 32

-- The message that the observer of `InitializeKeyboard` sends.
abbrev pub key_message : KeyPush → Message
key_message e =
    let shift = not (bit_and e.modifier shift_bit_mask == 0) in
    let map = if shift then keycode_map_shifted else keycode_map in
    record {
      src_task = 0;
      arg = key_push e.modifier e.keycode (get_or map e.keycode 0) (pos (if e.press then 1 else 0));
    }

-- The observer, for the key events of a report
unfoldable pub send_keys : TaskManager → List KeyPush → Option TaskManager
unfolding send_message
send_keys s [] = some s
send_keys s (e ∷ es) =
    let sent = send_message s 1 (key_message e) in sent >>= (λ (t, err). send_keys t es)
