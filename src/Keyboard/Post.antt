-- ===== src/Keyboard/Post.antt =====
-- The messages that the main task gets from the reports of a keyboard.
use mikanos.Prelude.{
  ℕ, ◌<◌, ◌≡◌, refl, sym, ◌∙◌, ap, subst, Bool, true, Option, some, List, [], ◌∷◌, ◌++◌, ◌==◌,
  ◌>>=◌, ltb, map, if◌then◌else◌, Returns, Returns->>=, Returns_mono,
}
use mathlib.Core.List.{append-nil, map-append}
use mikanos.Error.{Error}
use mikanos.Task.State.{Task, TaskManager, find_task}
use mikanos.Task.Sleep.{send_message}
use mikanos.Task.Invariant.{IsValid}
use mikanos.Task.Grow.{IsGrown, IsGrown-trans, send_message-IsGrown}
use mikanos.Keyboard.{
  HidKeyboardDriver, KeyPush, keys_of, on_data_received, on_interrupt_completed, key_message,
  send_keys,
}
use mikanos.Keyboard.Track.{replay, on_data_received_lem}

send_keys-IsGrown :
    (s : TaskManager) (u : Task) (es : List KeyPush)
    → IsValid s
    → find_task 1 s.tasks ≡ some u
    → Returns (send_keys s es) (IsGrown s 1 u (map key_message es))
unfolding send_keys
send_keys-IsGrown s u [] v found = record {
  valid = v;
  reader = u;
  found = found;
  msgs = sym (append-nil u.msgs);
  same_current = refl;
}
send_keys-IsGrown s u (e ∷ es) v found =
    Returns->>= (send_message s 1 (key_message e)) _ (λ r. IsGrown s 1 u (key_message e ∷ []) r.0) _
      (send_message-IsGrown s 1 u (key_message e) v found)
      (λ (t, err) k.
        Returns_mono (send_keys t es) _ _
          (λ r h. IsGrown-trans s t r 1 u (key_message e ∷ []) (map key_message es) k h)
          (send_keys-IsGrown t k.reader es k.valid k.found))

-- The controller writes the eight bytes of a report.
abbrev receive : HidKeyboardDriver → (ℕ → ℕ) → HidKeyboardDriver
receive k report = record k { buf = λ i. if ltb i 8 then report i else k.buf i }

-- Reports of the keyboard, one after the other.
unfoldable pub run_reports :
    TaskManager → HidKeyboardDriver → List (ℕ → ℕ) → Option (TaskManager × HidKeyboardDriver)
unfolding on_interrupt_completed send_keys
run_reports s k [] = some (s, k)
run_reports s k (report ∷ reports) =
    let (k', (es, err)) = on_interrupt_completed (receive k report) true 8 Error.success in
    let sent = send_keys s es in sent >>= (λ t. run_reports t k' reports)

abbrev pub last_report : (ℕ → ℕ) → List (ℕ → ℕ) → ℕ → ℕ
last_report buf [] = buf
last_report buf (report ∷ reports) = last_report report reports

replay-append :
    (held : ℕ → Bool) (es fs : List KeyPush) → replay held (es ++ fs) ≡ replay (replay held es) fs
replay-append held [] fs = refl
replay-append held (e ∷ es) fs =
    replay-append (λ key. if key == e.keycode then e.press else held key) es fs

-- The messages of the task tell which keys are held after the reports, where it was known before.
pub record IsTold (s : TaskManager) (u : Task) (buf : ℕ → ℕ) (reports : List (ℕ → ℕ))
    (t : TaskManager) : Type 0 where
  pub events : List KeyPush
  pub grown : IsGrown s 1 u (map key_message events) t
  pub tells :
      (held : ℕ → Bool) (key : ℕ)
      → 0 < key
      → key < 256
      → held key ≡ keys_of buf key
      → replay held events key ≡ keys_of (last_report buf reports) key

-- The driver keeps the eight bytes of the report, in which the keys stand.
kept_keys :
    (k : HidKeyboardDriver) (report : ℕ → ℕ) (reports : List (ℕ → ℕ)) (key : ℕ)
    → keys_of
        (last_report
          (on_interrupt_completed (receive k report) true 8 Error.success).0.previous_buf
          reports)
        key
      ≡ keys_of (last_report report reports) key
unfolding on_interrupt_completed
kept_keys k report [] key = refl
kept_keys k report (r ∷ reports) key = refl

-- In a valid state of the scheduler with a main task, each report of the keyboard is taken. The main task
-- gets a message for each key event, in order, the state is valid, and the current task is the same as
-- before. From the events, and from the keys that were held before, follows which of the keys 1 to 255
-- the last report has.
pub run_reports-IsTold :
    (s : TaskManager) (u : Task) (k : HidKeyboardDriver) (reports : List (ℕ → ℕ))
    → IsValid s
    → find_task 1 s.tasks ≡ some u
    → Returns (run_reports s k reports) (λ (t, k'). IsTold s u k.previous_buf reports t)
unfolding run_reports
run_reports-IsTold s u k [] v found = record {
  events = [];
  grown = send_keys-IsGrown s u [] v found;
  tells = λ held key pos low h. h;
}
run_reports-IsTold s u k (report ∷ reports) v found =
    let es : List KeyPush = on_data_received (receive k report) in
    Returns->>= (send_keys s es) _ (IsGrown s 1 u (map key_message es)) _
      (send_keys-IsGrown s u es v found)
      (λ t g.
        Returns_mono (run_reports t _ reports) (λ (r, k'). IsTold t g.reader _ reports r) _
          (λ (r, k') h. record {
            events = es ++ h.events;
            grown =
                subst (λ ms. IsGrown s 1 u ms r) (sym (map-append key_message es h.events))
                  (IsGrown-trans s t r 1 u (map key_message es) (map key_message h.events) g
                    h.grown);
            tells = λ held key pos low e.
                ap (λ f. f key) (replay-append held es h.events)
                ∙ h.tells (replay held es) key pos low
                    (on_data_received_lem (receive k report) held key pos low e)
                ∙ kept_keys k report reports key;
          })
          (run_reports-IsTold t g.reader _ reports g.valid g.found))
