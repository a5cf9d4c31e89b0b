-- ===== src/Terminal/Args/Tests.antt =====
-- The line `ls -a b`, with room for all of it, and without.
use mikanos.Prelude.{ℕ, ◌≡◌, refl, Bool, none, some, List, [], ◌∷◌, ◌==◌, arith}
use mikanos.Error.{Error}
use mikanos.Terminal.Args.{Limits, push_to_argv, push_words, make_arg_vector}
use mikanos.Terminal.Args.Layout.{IsText}
use mikanos.Terminal.Args.Split.{IsSplit}
use mikanos.Terminal.Args.Fill.{IsFilled, make_arg_vector_lem}

abbrev is_blank : ℕ → Bool
is_blank c = c == 32

abbrev roomy : Limits
roomy = record { argv_len = 32; argbuf_len = 4096 }

abbrev two_args : Limits
two_args = record { argv_len = 2; argbuf_len = 4096 }

abbrev ls : List ℕ
ls = 108 ∷ 115 ∷ []

abbrev options : List ℕ
options = 32 ∷ 45 ∷ 97 ∷ 32 ∷ 98 ∷ []

ls_all : make_arg_vector is_blank roomy ls (some options) ≡ (
  record { argv = 0 ∷ 3 ∷ 6 ∷ []; argbuf = 108 ∷ 115 ∷ 0 ∷ 45 ∷ 97 ∷ 0 ∷ 98 ∷ 0 ∷ [] },
  Error.success,
)
unfolding make_arg_vector push_to_argv push_words
ls_all = refl

ls_cut :
    make_arg_vector is_blank two_args ls (some options)
    ≡ (record { argv = 0 ∷ 3 ∷ []; argbuf = 108 ∷ 115 ∷ 0 ∷ 45 ∷ 97 ∷ 0 ∷ [] }, Error.full)
unfolding make_arg_vector push_to_argv push_words
ls_cut = refl

-- A buffer of one byte takes a command of two: `strcpy` runs over its end.
ls_overrun :
    make_arg_vector is_blank (record { argv_len = 2; argbuf_len = 1 }) ls none
    ≡ (record { argv = 0 ∷ []; argbuf = 108 ∷ 115 ∷ 0 ∷ [] }, Error.success)
unfolding make_arg_vector push_to_argv push_words
ls_overrun = refl

ls-IsText : IsText ls
ls-IsText = (λ e. absurd (omega arith), (λ e. absurd (omega arith), tt))

options-IsText : IsText options
options-IsText = (
  λ e. absurd (omega arith),
  (
    λ e. absurd (omega arith),
    (λ e. absurd (omega arith), (λ e. absurd (omega arith), (λ e. absurd (omega arith), tt))),
  ),
)

make_arg_vector_example :
    (ws : List (List ℕ)) × IsSplit is_blank options ws
    × IsFilled two_args
        (ls ∷ ws)
        (make_arg_vector is_blank two_args ls (some options)).0
        (make_arg_vector is_blank two_args ls (some options)).1
make_arg_vector_example =
    make_arg_vector_lem is_blank two_args ls (some options) ls-IsText options-IsText
