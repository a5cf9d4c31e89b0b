-- ===== src/Terminal/Args/Split.antt =====
-- The words of a text, as the loop of `MakeArgVector` finds them.
use mikanos.Prelude.{
  ℕ, zero, suc, ◌<◌, ◌≡◌, inl, inr, refl, sym, ◌∙◌, ap, subst, Bool, true, false, List, [], ◌∷◌,
  ◌++◌, length, length-append, if◌then◌else◌, arith, All, All-parts, Bool-cases,
}
use mathlib.Core.List.{nil≢cons, head-eq_of_cons-eq, append-nil}
use mikanos.Terminal.Args.{skip_spaces, take_word, drop_word}

module _ (isspace : ℕ → Bool) where
  abbrev pub AllSpace : List ℕ → Type 0
  AllSpace = All (λ c. isspace c ≡ true)

  abbrev pub NoSpace : List ℕ → Type 0
  NoSpace = All (λ c. isspace c ≡ false)

  abbrev pub BeginsWithSpace : List ℕ → Type 0
  BeginsWithSpace [] = Unit
  BeginsWithSpace (c ∷ p) = isspace c ≡ true

  -- The words of a text, in order: what stands between spaces.
  pub data IsSplit : List ℕ → List (List ℕ) → Type 0 where
    spaces : (pre : List ℕ) → AllSpace pre → IsSplit pre []
    word :
        (pre w rest : List ℕ) (ws : List (List ℕ))
        → AllSpace pre
        → NoSpace w
        → 0 < length w
        → BeginsWithSpace rest
        → IsSplit rest ws
        → IsSplit (pre ++ (w ++ rest)) (w ∷ ws)

  -- The text is spaces, a word and the rest.
  passed_spaces : List ℕ → List ℕ
  passed_spaces [] = []
  passed_spaces (c ∷ p) = if isspace c then c ∷ passed_spaces p else []

  passed-AllSpace : (p : List ℕ) → AllSpace (passed_spaces p)
  unfolding passed_spaces
  passed-AllSpace [] = tt
  passed-AllSpace (c ∷ p) = elim (Bool-cases (isspace c)) [
    | inl e ↦ rw e (e, passed-AllSpace p)
    | inr e ↦ rw e tt
  ]

  passed-skip : (p : List ℕ) → passed_spaces p ++ skip_spaces isspace p ≡ p
  unfolding passed_spaces
  passed-skip [] = refl
  passed-skip (c ∷ p) = elim (Bool-cases (isspace c)) [
    | inl e ↦ rw e (ap (◌∷◌ c) (passed-skip p))
    | inr e ↦ rw e refl
  ]

  skip-first :
      (p : List ℕ) (c : ℕ) (cs : List ℕ) → skip_spaces isspace p ≡ c ∷ cs → isspace c ≡ false
  skip-first [] c cs e = absurd (nil≢cons e)
  skip-first (d ∷ p) c cs e = elim (Bool-cases (isspace d)) [
    | inl f ↦
        let step : skip_spaces isspace (d ∷ p) ≡ skip_spaces isspace p = rw f refl in
        skip-first p c cs (sym step ∙ e)
    | inr f ↦
        let step : skip_spaces isspace (d ∷ p) ≡ d ∷ p = rw f refl in
        ap isspace (sym (head-eq_of_cons-eq (sym step ∙ e))) ∙ f
  ]

  word_parts : (p : List ℕ) → take_word isspace p ++ drop_word isspace p ≡ p
  word_parts [] = refl
  word_parts (c ∷ p) = elim (Bool-cases (isspace c)) [
    | inl e ↦ rw e refl
    | inr e ↦ rw e (ap (◌∷◌ c) (word_parts p))
  ]

  take_word-NoSpace : (p : List ℕ) → NoSpace (take_word isspace p)
  take_word-NoSpace [] = tt
  take_word-NoSpace (c ∷ p) = elim (Bool-cases (isspace c)) [
    | inl e ↦ rw e tt
    | inr e ↦ rw e (e, take_word-NoSpace p)
  ]

  drop_word-BeginsWithSpace : (p : List ℕ) → BeginsWithSpace (drop_word isspace p)
  drop_word-BeginsWithSpace [] = tt
  drop_word-BeginsWithSpace (c ∷ p) = elim (Bool-cases (isspace c)) [
    | inl e ↦ rw e e
    | inr e ↦ rw e (drop_word-BeginsWithSpace p)
  ]

  space-IsSplit :
      (d : ℕ) (rest : List ℕ) (ws : List (List ℕ))
      → isspace d ≡ true
      → IsSplit rest ws
      → IsSplit (d ∷ rest) ws
  space-IsSplit d _ _ e (spaces pre h) = spaces (d ∷ pre) (e, h)
  space-IsSplit d _ _ e (word pre w rest ws h n l b k) = word (d ∷ pre) w rest ws (e, h) n l b k

  -- The words that the loop finds in `rounds` rounds.
  abbrev pub words : ℕ → List ℕ → List (List ℕ)
  words zero text = []
  words (suc rounds) text = elim (skip_spaces isspace text) [
    | [] ↦ []
    | c ∷ cs ↦
        take_word isspace (c ∷ cs)
        ∷ (elim (drop_word isspace (c ∷ cs)) [ [] ↦ [] | d ∷ rest ↦ words rounds rest ])
  ]

  -- A word begins after the spaces.
  word-positive :
      (p : List ℕ) (c : ℕ) (cs : List ℕ)
      → skip_spaces isspace p ≡ c ∷ cs
      → 0 < length (take_word isspace (c ∷ cs))
  word-positive p c cs e = rw (skip-first p c cs e) (omega arith)

  -- A round of the loop, where the words of shorter texts are known to be right.
  module _ (rounds : ℕ)
      (shorter : (text : List ℕ) → length text < rounds → IsSplit text (words rounds text)) where
    -- What follows a word.
    abbrev after_word : List ℕ → List (List ℕ)
    after_word [] = []
    after_word (d ∷ rest) = words rounds rest

    after_word-IsSplit :
        (p : List ℕ) → BeginsWithSpace p → length p < suc rounds → IsSplit p (after_word p)
    after_word-IsSplit [] b h = spaces [] tt
    after_word-IsSplit (d ∷ rest) b h =
        space-IsSplit d rest (words rounds rest) b (shorter rest (omega arith))

    round-IsSplit :
        (text p : List ℕ)
        → skip_spaces isspace text ≡ p
        → length text < suc rounds
        → IsSplit text (words (suc rounds) text)
    round-IsSplit text [] e h =
        let whole : passed_spaces text ≡ text =
          sym (append-nil (passed_spaces text))
          ∙ ap (λ p. passed_spaces text ++ p) (sym e)
          ∙ passed-skip text in
        rw (e, words)
          (subst (λ t. IsSplit t []) whole (spaces (passed_spaces text) (passed-AllSpace text)))
    round-IsSplit text (c ∷ cs) e h =
        let w : List ℕ = take_word isspace (c ∷ cs) in
        let rest : List ℕ = drop_word isspace (c ∷ cs) in
        let parts : w ++ rest ≡ c ∷ cs = word_parts (c ∷ cs) in
        let whole : passed_spaces text ++ (w ++ rest) ≡ text =
          ap (λ p. passed_spaces text ++ p) (parts ∙ sym e) ∙ passed-skip text in
        let short : length rest < suc rounds = omega (
          arith,
          h,
          ap (length {A = ℕ}) whole,
          length-append (passed_spaces text) (w ++ rest),
          length-append w rest,
          word-positive text c cs e,
        ) in
        rw (e, words)
          (subst (λ t. IsSplit t (w ∷ after_word rest)) whole
            (word (passed_spaces text) w rest (after_word rest) (passed-AllSpace text)
              (take_word-NoSpace (c ∷ cs)) (word-positive text c cs e)
              (drop_word-BeginsWithSpace (c ∷ cs))
              (after_word-IsSplit rest (drop_word-BeginsWithSpace (c ∷ cs)) short)))

  pub words-IsSplit :
      (rounds : ℕ) (text : List ℕ) → length text < rounds → IsSplit text (words rounds text)
  words-IsSplit zero text h = absurd (omega arith)
  words-IsSplit (suc rounds) text h =
      round-IsSplit rounds (words-IsSplit rounds) text (skip_spaces isspace text) refl h

  -- The words of a text have only characters of the text.
  pub words-All :
      (P : ℕ → Type 0) (text : List ℕ) (ws : List (List ℕ))
      → IsSplit text ws
      → All P text
      → All (All P) ws
  words-All P _ _ (spaces pre h) k = tt
  words-All P _ _ (word pre w rest ws h n l b s) k =
      let (front, back) = All-parts P w rest (All-parts P pre (w ++ rest) k).1 in
      (front, words-All P rest ws s back)
