-- ===== src/Terminal/Args.antt =====
-- `MakeArgVector` of src/kernel/terminal.cpp: the words of a command line, as the argument vector of a
-- program.
pub mod Layout
pub mod Split
pub mod Fill
pub mod Tests
use mikanos.Prelude.{
  ℕ, zero, suc, ◌+◌, Bool, true, false, not, ◌||◌, Option, none, some, List, [], ◌∷◌, ◌++◌, leb,
  length, if◌then◌else◌,
}
use mikanos.Error.{Error, is_error}

-- `argv`, as positions in `argbuf`, and what has been written to `argbuf`; their lengths are `argc` and
-- `argbuf_index`.
pub record ArgVector : Type 0 where
  pub argv : List ℕ
  pub argbuf : List ℕ

pub record Limits : Type 0 where
  pub argv_len : ℕ
  pub argbuf_len : ℕ

-- `push_to_argv`; `strcpy` copies the string and a 0.
unfoldable pub push_to_argv : Limits → ArgVector → List ℕ → ArgVector × Error
push_to_argv limits a s =
    if leb limits.argv_len (length a.argv) || leb limits.argbuf_len (length a.argbuf)
    then (a, Error.full)
    else (
      record { argv = a.argv ++ length a.argbuf ∷ []; argbuf = a.argbuf ++ (s ++ 0 ∷ []) },
      Error.success,
    )

-- The characters of a string before its 0, with `isspace` of the C library.
module _ (isspace : ℕ → Bool) where
  -- `while (isspace(p[0])) { ++p; }`
  abbrev pub skip_spaces : List ℕ → List ℕ
  skip_spaces [] = []
  skip_spaces (c ∷ p) = let rest = skip_spaces p in if isspace c then rest else c ∷ p

  -- `while (p[0] != 0 && !isspace(p[0])) { ++p; }`: the characters that `p` passes, and what is left.
  abbrev pub take_word : List ℕ → List ℕ
  take_word [] = []
  take_word (c ∷ p) = let rest = take_word p in if isspace c then [] else c ∷ rest

  abbrev pub drop_word : List ℕ → List ℕ
  drop_word [] = []
  drop_word (c ∷ p) = let rest = drop_word p in if isspace c then c ∷ p else rest

  -- The loop, with `rounds` rounds left.
  unfoldable pub push_words : ℕ → Limits → ArgVector → List ℕ → ArgVector × Error
  unfolding push_to_argv
  push_words zero limits a text = (a, Error.success)
  push_words (suc rounds) limits a text = elim (skip_spaces text) [
    | [] ↦ (a, Error.success)
    | c ∷ cs ↦
        let pushed = push_to_argv limits a (take_word (c ∷ cs)) in
        if is_error pushed.1 then pushed else (elim (drop_word (c ∷ cs)) [
          | [] ↦ (pushed.0, Error.success)
          | d ∷ rest ↦ push_words rounds limits pushed.0 rest
        ])
  ]

  -- `MakeArgVector`. A round passes at least one character.
  unfoldable pub make_arg_vector : Limits → List ℕ → Option (List ℕ) → ArgVector × Error
  unfolding push_to_argv push_words
  make_arg_vector limits command first_arg =
      let pushed = push_to_argv limits (record { argv = []; argbuf = [] }) command in
      if is_error pushed.1 then pushed else (elim first_arg [
        | none ↦ (pushed.0, Error.success)
        | some text ↦ push_words (length text + 1) limits pushed.0 text
      ])
