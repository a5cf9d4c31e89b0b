-- ===== src/Terminal/Args/Fill.antt =====
-- The command and the words of the line stand in the vector, as far as there is room.
use mikanos.Prelude.{
  ℕ, zero, suc, ◌+◌, ◌≤◌, ◌≡◌, ◌≢◌, ◌⊎◌, inl, inr, refl, sym, ◌∙◌, ap, subst, Bool, true, false,
  ◌||◌, Option, none, some, List, [], ◌∷◌, ◌++◌, leb, length, if◌then◌else◌, arith, All, All-append,
  Bool-cases,
}
use mathlib.Core.List.{append_assoc, nil≢cons}
use mikanos.Error.{Error, is_error}
use mikanos.Terminal.Args.{
  ArgVector, Limits, push_to_argv, skip_spaces, take_word, drop_word, push_words, make_arg_vector,
}
use mikanos.Terminal.Args.Layout.{
  flat, offsets, strings, IsText, flat-append, offsets-append, layout, strings-layout,
}
use mikanos.Terminal.Args.Split.{IsSplit, words, words-IsSplit, words-All}

-- What `MakeArgVector` leaves, where the strings `all` are to be pushed: all of them, or as many as there
-- is room for.
pub record IsFilled (limits : Limits) (all : List (List ℕ)) (a : ArgVector) (e : Error)
    : Type 0 where
  pub pushed : List (List ℕ)
  pub left : List (List ℕ)
  pub all_parts : pushed ++ left ≡ all
  pub found : strings a ≡ pushed
  pub complete : left ≡ [] → e ≡ Error.success
  pub cut :
      left ≢ []
      → (e ≡ Error.full)
        × ((limits.argv_len ≤ length a.argv) ⊎ (limits.argbuf_len ≤ length a.argbuf))

-- Strings are pushed one after the other, until one does not fit.
abbrev push_all : Limits → ArgVector → List (List ℕ) → ArgVector × Error
unfolding push_to_argv
push_all limits a [] = (a, Error.success)
push_all limits a (w ∷ ws) =
    let pushed = push_to_argv limits a w in
    let rest = push_all limits pushed.0 ws in if is_error pushed.1 then pushed else rest

push-layout :
    (limits : Limits) (ws : List (List ℕ)) (w : List ℕ)
    → (leb limits.argv_len (length (offsets 0 ws)) || leb limits.argbuf_len (length (flat ws)))
      ≡ false
    → push_to_argv limits (layout ws) w ≡ (layout (ws ++ w ∷ []), Error.success)
unfolding push_to_argv
push-layout limits ws w h = rw h (ap (λ a. (a, Error.success)) (sym both))
  where
    both :
        layout (ws ++ w ∷ [])
        ≡ record { argv = offsets 0 ws ++ length (flat ws) ∷ []; argbuf = flat ws ++ (w ++ 0 ∷ []) }
    both =
        ap (λ b. record { argv = offsets 0 (ws ++ w ∷ []); argbuf = b }) (flat-append ws w)
        ∙ ap (λ v. record { argv = v; argbuf = flat ws ++ (w ++ 0 ∷ []) })
            (offsets-append 0 ws w ∙ ap (λ n. offsets 0 ws ++ n ∷ []) (omega arith))

push-full :
    (limits : Limits) (a : ArgVector) (w : List ℕ)
    → (leb limits.argv_len (length a.argv) || leb limits.argbuf_len (length a.argbuf)) ≡ true
    → push_to_argv limits a w ≡ (a, Error.full)
unfolding push_to_argv
push-full limits a w h = rw h refl

-- The loop pushes the words that it finds.
module _ (isspace : ℕ → Bool) (rounds : ℕ) (limits : Limits)
    (shorter : (a : ArgVector) (text : List ℕ)
      → push_words isspace rounds limits a text
        ≡ push_all limits a (words isspace rounds text)) where
  tail-all :
      (b : ArgVector) (p : List ℕ)
      → elim p [ [] ↦ (b, Error.success) | d ∷ rest ↦ push_words isspace rounds limits b rest ]
        ≡ push_all limits b (elim p [ [] ↦ [] | d ∷ rest ↦ words isspace rounds rest ])
  unfolding push_all
  tail-all b [] = refl
  tail-all b (d ∷ rest) = shorter b rest

  round-all :
      (a : ArgVector) (text p : List ℕ)
      → skip_spaces isspace text ≡ p
      → push_words isspace (suc rounds) limits a text
        ≡ push_all limits a (words isspace (suc rounds) text)
  unfolding push_words push_all
  round-all a text [] e = rw (e, push_words, words) refl
  round-all a text (c ∷ cs) e =
      let r : ArgVector × Error = push_to_argv limits a (take_word isspace (c ∷ cs)) in
      rw (e, push_words, words)
        (ap (λ x. if is_error r.1 then r else x) (tail-all r.0 (drop_word isspace (c ∷ cs))))

push_words-all :
    (isspace : ℕ → Bool) (rounds : ℕ) (limits : Limits) (a : ArgVector) (text : List ℕ)
    → push_words isspace rounds limits a text ≡ push_all limits a (words isspace rounds text)
unfolding push_words push_all
push_words-all isspace zero limits a text = refl
push_words-all isspace (suc rounds) limits a text =
    round-all isspace rounds limits (push_words-all isspace rounds limits) a text
      (skip_spaces isspace text) refl

-- What is left after a string has been pushed, or not.
abbrev IsPushed : Limits → List (List ℕ) → List (List ℕ) → ArgVector × Error → Type 0
unfolding push_all
IsPushed limits all ws r =
    let rest = push_all limits r.0 ws in
    IsFilled limits all (if is_error r.1 then r else rest).0 (if is_error r.1 then r else rest).1

either_full :
    (limits : Limits) (a : ArgVector)
    → (leb limits.argv_len (length a.argv) || leb limits.argbuf_len (length a.argbuf)) ≡ true
    → (limits.argv_len ≤ length a.argv) ⊎ (limits.argbuf_len ≤ length a.argbuf)
either_full limits a h = elim (Bool-cases (leb limits.argv_len (length a.argv))) [
  | inl e ↦ inl (ground arith)
  | inr e ↦ inr (ground arith)
]

push_all-IsFilled :
    (limits : Limits) (done ws : List (List ℕ))
    → All IsText done
    → All IsText ws
    → IsFilled limits
        (done ++ ws)
        (push_all limits (layout done) ws).0
        (push_all limits (layout done) ws).1
unfolding push_all IsPushed
push_all-IsFilled limits done [] h k = record {
  pushed = done;
  left = [];
  all_parts = refl;
  found = strings-layout done h;
  complete = λ e. refl;
  cut = λ d. absurd (d refl);
}
push_all-IsFilled limits done (w ∷ ws) h (k, ks) =
    elim (Bool-cases (
      leb limits.argv_len (length (offsets 0 done))
      || leb limits.argbuf_len (length (flat done)))) [
        | inl full ↦
            subst (IsPushed limits (done ++ w ∷ ws) ws)
              (sym (push-full limits (layout done) w full))
              (record {
                pushed = done;
                left = w ∷ ws;
                all_parts = refl;
                found = strings-layout done h;
                complete = λ e. absurd (nil≢cons (sym e));
                cut = λ d. (refl, either_full limits (layout done) full);
              })
        | inr room ↦
            subst (IsPushed limits (done ++ w ∷ ws) ws) (sym (push-layout limits done w room)) (
              subst
                (λ all.
                  IsFilled limits all (push_all limits (layout (done ++ w ∷ [])) ws).0
                    (push_all limits (layout (done ++ w ∷ [])) ws).1)
                (append_assoc done (w ∷ []) ws)
                (push_all-IsFilled limits (done ++ w ∷ []) ws
                  (All-append IsText done (w ∷ []) h (k, tt)) ks))
      ]

-- The text of the first argument
abbrev pub line : Option (List ℕ) → List ℕ
line none = []
line (some text) = text

IsFilled-line :
    (isspace : ℕ → Bool) (limits : Limits) (command : List ℕ) (first_arg : Option (List ℕ))
    → IsText command
    → IsText (line first_arg)
    → IsFilled limits
        (command ∷ words isspace (length (line first_arg) + 1) (line first_arg))
        (make_arg_vector isspace limits command first_arg).0
        (make_arg_vector isspace limits command first_arg).1
unfolding make_arg_vector push_all
IsFilled-line isspace limits command none h k =
    push_all-IsFilled limits [] (command ∷ []) tt (h, tt)
IsFilled-line isspace limits command (some text) h k =
    let r : ArgVector × Error = push_to_argv limits (layout []) command in
    let step : make_arg_vector isspace limits command (some text)
        ≡ push_all limits (layout []) (command ∷ words isspace (length text + 1) text) =
      ap (λ x. if is_error r.1 then r else x)
        (push_words-all isspace (length text + 1) limits r.0 text) in
    subst (λ x. IsFilled limits (command ∷ words isspace (length text + 1) text) x.0 x.1) (sym step)
      (push_all-IsFilled limits [] (command ∷ words isspace (length text + 1) text) tt (
        h,
        words-All isspace (λ c. c ≢ 0) text (words isspace (length text + 1) text)
            (words-IsSplit isspace (length text + 1) text (omega arith)) k,
      ))

-- Whatever `isspace` takes for a space: if the command and the text, which may be missing, hold no
-- 0, then `MakeArgVector` gives the command and the words of the text, in order, each at its place
-- in the buffer. It succeeds if all of them fit; else it fails with kFull, and has kept those
-- before the first for which there is no entry of `argv` or no byte of `argbuf` left.
pub make_arg_vector_lem :
    (isspace : ℕ → Bool) (limits : Limits) (command : List ℕ) (first_arg : Option (List ℕ))
    → IsText command
    → IsText (line first_arg)
    → (ws : List (List ℕ)) × IsSplit isspace (line first_arg) ws
      × IsFilled limits
          (command ∷ ws)
          (make_arg_vector isspace limits command first_arg).0
          (make_arg_vector isspace limits command first_arg).1
make_arg_vector_lem isspace limits command first_arg h k =
    let text : List ℕ = line first_arg in
    let ws : List (List ℕ) = words isspace (length text + 1) text in
    (
      ws,
      words-IsSplit isspace (length text + 1) text (omega arith),
      IsFilled-line isspace limits command first_arg h k,
    )
