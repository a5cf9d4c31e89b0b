-- ===== src/Keyboard/Track.antt =====
-- The key events tell which keys are held.
use mikanos.Prelude.{
  ℕ, zero, suc, ◌+◌, ◌<◌, ◌≡◌, refl, ◌∙◌, ap, Bool, true, false, ◌&&◌, List, [], ◌∷◌, ◌==◌, ltb,
  leb, if◌then◌else◌, arith, Bool-cases, inl, inr,
}
use mikanos.Keyboard.{HidKeyboardDriver, KeyPush, keys_of, xor, notify_keys, on_data_received}

-- The keys that are held after some events.
abbrev pub replay : (ℕ → Bool) → List KeyPush → ℕ → Bool
replay held [] = held
replay held (e ∷ es) = replay (λ key. if key == e.keycode then e.press else held key) es

-- The loop goes over key `i`, which has changed, or not.
first_key :
    (rounds : ℕ) (changed pressed : ℕ → Bool) (i : ℕ) (held : ℕ → Bool) (key : ℕ)
    → changed i ≡ true
    → (if leb (i + 1) key && (ltb key (i + 1 + rounds) && changed key)
        then pressed key
        else if key == i
        then pressed i
        else held key)
      ≡ (if leb i key && (ltb key (i + suc rounds) && changed key) then pressed key else held key)
first_key rounds changed pressed i held key c = elim (Bool-cases (key == i)) [
  | inl e ↦ let same : i ≡ key = ground arith in ground (arith, ap changed same, ap pressed same)
  | inr e ↦ ground arith
]

no_key :
    (rounds : ℕ) (changed pressed : ℕ → Bool) (i : ℕ) (held : ℕ → Bool) (key : ℕ)
    → changed i ≡ false
    → (if leb (i + 1) key && (ltb key (i + 1 + rounds) && changed key)
        then pressed key
        else held key)
      ≡ (if leb i key && (ltb key (i + suc rounds) && changed key) then pressed key else held key)
no_key rounds changed pressed i held key c = elim (Bool-cases (key == i)) [
  | inl e ↦ let same : i ≡ key = ground arith in ground (arith, ap changed same, ap pressed same)
  | inr e ↦ ground arith
]

replay-notify_keys :
    (rounds modifier : ℕ) (changed pressed : ℕ → Bool) (i : ℕ) (held : ℕ → Bool) (key : ℕ)
    → replay held (notify_keys rounds modifier changed pressed i) key
      ≡ (if leb i key && (ltb key (i + rounds) && changed key) then pressed key else held key)
unfolding notify_keys
replay-notify_keys zero modifier changed pressed i held key = ground arith
replay-notify_keys (suc rounds) modifier changed pressed i held key =
    elim (Bool-cases (changed i)) [
      | inl moved ↦ rw moved (
          replay-notify_keys rounds modifier changed pressed (i + 1)
            (λ x. if x == i then pressed i else held x) key
          ∙ first_key rounds changed pressed i held key moved)
      | inr same ↦ rw same (
          replay-notify_keys rounds modifier changed pressed (i + 1) held key
          ∙ no_key rounds changed pressed i held key same)
    ]

-- What has become of a key between two reports.
changed_key : (prev cur : Bool) → (if xor prev cur then xor prev cur && cur else prev) ≡ cur
changed_key true true = refl
changed_key true false = refl
changed_key false true = refl
changed_key false false = refl

-- One report: where it is known which keys were held, the events tell which are held now.
pub on_data_received_lem :
    (k : HidKeyboardDriver) (held : ℕ → Bool) (key : ℕ)
    → 0 < key
    → key < 256
    → held key ≡ keys_of k.previous_buf key
    → replay held (on_data_received k) key ≡ keys_of k.buf key
unfolding on_data_received
on_data_received_lem k held key pos low h =
    let prev : Bool = keys_of k.previous_buf key in
    let cur : Bool = keys_of k.buf key in
    let from : leb 1 key ≡ true = ground arith in
    let to : ltb key 256 ≡ true = ground arith in
    replay-notify_keys 255 (k.buf 0) (λ x. xor (keys_of k.previous_buf x) (keys_of k.buf x))
      (λ x. xor (keys_of k.previous_buf x) (keys_of k.buf x) && keys_of k.buf x) 1 held key
    ∙ ap (λ b. if b && (ltb key 256 && xor prev cur) then xor prev cur && cur else held key) from
    ∙ ap (λ b. if b && xor prev cur then xor prev cur && cur else held key) to
    ∙ ap (λ b. if xor prev cur then xor prev cur && cur else b) h
    ∙ changed_key prev cur
