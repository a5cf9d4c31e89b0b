-- ===== src/Terminal/Pipe/Send.antt =====
-- The messages that `Write` sends carry the bytes of the buffer.
use mikanos.Prelude.{
  ℕ, zero, suc, ◌+◌, ◌-◌, ◌<◌, ◌≤◌, ◌≡◌, refl, sym, ◌∙◌, ap, min, false, some, List, [], ◌∷◌, ◌++◌,
  ◌==◌, ltb, length, take, drop, drop-drop, length-drop, arith, All, Bool-cases, inl, inr, Returns,
  Returns->>=, Returns_mono,
}
use mathlib.Core.List.{append-nil}
use mikanos.Message.{Message, pipe}
use mikanos.Task.State.{Task, TaskManager, find_task}
use mikanos.Task.Sleep.{task_send_message}
use mikanos.Task.Invariant.{IsValid}
use mikanos.Task.Grow.{IsGrown, task_send_message_lem, IsGrown-trans}
use mikanos.Terminal.Pipe.{pipe_size, memcpy, as_pipe, write_loop}
use mikanos.Terminal.Pipe.Stream.{pending, is_ended, IsBlock, take-memcpy, length-memcpy}

take-split : (n k m : ℕ) (xs : List ℕ) → n + k ≡ m → take n xs ++ take k (drop n xs) ≡ take m xs
take-split zero k m xs e = ap (λ i. take i xs) (omega arith)
take-split (suc n) k zero xs e = absurd (omega arith)
take-split (suc n) zero (suc m) [] e = refl
take-split (suc n) (suc k) (suc m) [] e = refl
take-split (suc n) k (suc m) (x ∷ xs) e = ap (◌∷◌ x) (take-split n k m xs (omega arith))

-- The messages carry the bytes `sent`, and do not end the pipe.
pub record Carries (sent : List ℕ) (added : List Message) : Type 0 where
  pub bytes : pending added ≡ sent
  pub not_ended : is_ended added ≡ false
  pub blocks : All (λ msg. IsBlock (as_pipe msg.arg)) added

-- What the loop sends when `sent_bytes` of `len` bytes have been sent.
abbrev pub Sends : TaskManager → ℕ → Task → List ℕ → TaskManager → Type 0
Sends s task u sent t = (added : List Message) × IsGrown s task u added t × Carries sent added

block-Carries :
    (buf array : List ℕ) (len sent_bytes : ℕ)
    → sent_bytes < len
    → len ≤ length buf
    → length array ≡ pipe_size
    → (added : List Message)
    → Carries
        (take
          (len - (sent_bytes + min (len - sent_bytes) pipe_size))
          (drop (sent_bytes + min (len - sent_bytes) pipe_size) buf))
        added
    → Carries (take (len - sent_bytes) (drop sent_bytes buf)) (
        record {
          src_task = 0;
          arg =
              pipe
                (memcpy array (drop sent_bytes buf) (min (len - sent_bytes) pipe_size))
                (min (len - sent_bytes) pipe_size);
        }
        ∷ added)
block-Carries buf array len sent_bytes more fits size added c =
    let n : ℕ = min (len - sent_bytes) pipe_size in
    let left : List ℕ = drop sent_bytes buf in
    let some_bytes : (n == 0) ≡ false = ground arith in
    let whole : n ≤ length left = omega (arith, length-drop sent_bytes buf) in
    record {
      bytes = rw some_bytes (
          ap (λ xs. take n (memcpy array left n) ++ xs) c.bytes
          ∙ ap (λ xs. xs ++ take (len - (sent_bytes + n)) (drop (sent_bytes + n) buf))
              (take-memcpy array left n whole)
          ∙ ap (λ xs. take n left ++ take (len - (sent_bytes + n)) xs)
              (sym (drop-drop n sent_bytes (sent_bytes + n) buf refl))
          ∙ take-split n (len - (sent_bytes + n)) (len - sent_bytes) left (omega arith));
      not_ended = rw some_bytes c.not_ended;
      blocks = ((length-memcpy array left n whole (omega arith) ∙ size, omega arith), c.blocks);
    }

-- Nothing is left to send.
done-Sends :
    (s : TaskManager) (task : ℕ) (u : Task) (buf : List ℕ) (len sent_bytes : ℕ)
    → len ≤ sent_bytes
    → IsValid s
    → find_task task s.tasks ≡ some u
    → Sends s task u (take (len - sent_bytes) (drop sent_bytes buf)) s
done-Sends s task u buf len sent_bytes done v found = (
  [],
  record {
    valid = v;
    reader = u;
    found = found;
    msgs = sym (append-nil u.msgs);
    same_current = refl;
  },
  record {
    bytes =
        let none_left : 0 ≡ len - sent_bytes = omega arith in
        ap (λ m. take m (drop sent_bytes buf)) none_left;
    not_ended = refl;
    blocks = tt;
  },
)

-- Every round sends a byte, so the rounds are enough.
pub write_loop-Sends :
    (rounds : ℕ) (s : TaskManager) (task : ℕ) (u : Task) (buf array : List ℕ) (len sent_bytes : ℕ)
    → len ≤ sent_bytes + rounds
    → len ≤ length buf
    → length array ≡ pipe_size
    → IsValid s
    → find_task task s.tasks ≡ some u
    → Returns
        (write_loop rounds s task buf len sent_bytes array)
        (Sends s task u (take (len - sent_bytes) (drop sent_bytes buf)))
unfolding write_loop
write_loop-Sends zero s task u buf array len sent_bytes enough fits size v found =
    let done : ltb sent_bytes len ≡ false = ground arith in
    rw done (done-Sends s task u buf len sent_bytes (omega arith) v found)
write_loop-Sends (suc rounds) s task u buf array len sent_bytes enough fits size v found =
    let n : ℕ = min (len - sent_bytes) pipe_size in
    let left : List ℕ = drop sent_bytes buf in
    let array' : List ℕ = memcpy array left n in
    let msg : Message = record { src_task = 0; arg = pipe array' n } in
    elim (Bool-cases (ltb sent_bytes len)) [
      | inr done ↦ rw done (done-Sends s task u buf len sent_bytes (ground arith) v found)
      | inl more ↦
          let whole : n ≤ length left = omega (arith, length-drop sent_bytes buf) in
          let more' : sent_bytes < len = ground arith in
          rw more (
            Returns->>= (task_send_message s task msg) _ (IsGrown s task u (msg ∷ [])) _
              (task_send_message_lem s task u msg v found)
              (λ t k.
                Returns_mono (write_loop rounds t task buf len (sent_bytes + n) array') _ _
                  (λ r (added, grown, carried). (
                    msg ∷ added,
                    IsGrown-trans s t r task u (msg ∷ []) added k grown,
                    block-Carries buf array len sent_bytes more' fits size added carried,
                  ))
                  (write_loop-Sends rounds t task k.reader buf array' len (sent_bytes + n)
                    (omega arith) fits (length-memcpy array left n whole (omega arith) ∙ size)
                    k.valid k.found)))
    ]
