-- ===== src/Terminal/Args/Layout.antt =====
-- Strings one after the other in a buffer, each with a 0 behind.
use mikanos.Prelude.{
  ℕ, ◌+◌, ◌≡◌, ◌≢◌, refl, sym, ◌∙◌, ap, subst, false, List, [], ◌∷◌, ◌++◌, ◌==◌, map, length,
  length-append, drop, drop-append, if◌then◌else◌, arith, All,
}
use mathlib.Core.List.{append_assoc}
use mikanos.Terminal.Args.{ArgVector}

abbrev pub flat : List (List ℕ) → List ℕ
flat [] = []
flat (w ∷ ws) = w ++ 0 ∷ flat ws

abbrev pub offsets : ℕ → List (List ℕ) → List ℕ
offsets k [] = []
offsets k (w ∷ ws) = k ∷ offsets (k + (length w + 1)) ws

-- The characters before a 0.
abbrev pub until_zero : List ℕ → List ℕ
until_zero [] = []
until_zero (c ∷ cs) = let rest = until_zero cs in if c == 0 then [] else c ∷ rest

-- The strings that a program finds at its arguments.
abbrev pub strings : ArgVector → List (List ℕ)
strings a = map (λ i. until_zero (drop i a.argbuf)) a.argv

abbrev pub IsText : List ℕ → Type 0
IsText = All (λ c. c ≢ 0)

pub until_zero-text : (w rest : List ℕ) → IsText w → until_zero (w ++ 0 ∷ rest) ≡ w
until_zero-text [] rest h = refl
until_zero-text (c ∷ w) rest (h, hs) =
    let other : (c == 0) ≡ false = ground arith in rw other (ap (◌∷◌ c) (until_zero-text w rest hs))

-- What is found in a buffer that begins with `front`.
found :
    (front : List ℕ) (ws : List (List ℕ))
    → All IsText ws
    → map (λ i. until_zero (drop i (front ++ flat ws))) (offsets (length front) ws) ≡ ws
found front [] h = refl
found front (w ∷ ws) (h, hs) =
    let buffer : List ℕ = front ++ flat (w ∷ ws) in
    let front' : List ℕ = front ++ (w ++ 0 ∷ []) in
    let same : front' ++ flat ws ≡ buffer =
      append_assoc front (w ++ 0 ∷ []) (flat ws)
      ∙ ap (λ xs. front ++ xs) (append_assoc w (0 ∷ []) (flat ws)) in
    let next : length front' ≡ length front + (length w + 1) =
      omega (arith, length-append front (w ++ 0 ∷ []), length-append w (0 ∷ [])) in
    let here : until_zero (drop (length front) buffer) ≡ w =
      ap until_zero (drop-append (length front) 0 front (flat (w ∷ ws)) (omega arith))
      ∙ until_zero-text w (flat ws) h in
    ap (λ x. x ∷ map (λ i. until_zero (drop i buffer)) (offsets (length front + (length w + 1)) ws))
      here
    ∙ ap (◌∷◌ w) (
        subst (λ n. map (λ i. until_zero (drop i buffer)) (offsets n ws) ≡ ws) next
          (subst (λ b. map (λ i. until_zero (drop i b)) (offsets (length front') ws) ≡ ws) same
            (found front' ws hs)))

pub flat-append : (ws : List (List ℕ)) (s : List ℕ) → flat (ws ++ s ∷ []) ≡ flat ws ++ (s ++ 0 ∷ [])
flat-append [] s = refl
flat-append (w ∷ ws) s =
    ap (λ xs. w ++ 0 ∷ xs) (flat-append ws s) ∙ sym (append_assoc w (0 ∷ flat ws) (s ++ 0 ∷ []))

pub offsets-append :
    (k : ℕ) (ws : List (List ℕ)) (s : List ℕ)
    → offsets k (ws ++ s ∷ []) ≡ offsets k ws ++ (k + length (flat ws)) ∷ []
offsets-append k [] s = ap (λ x. x ∷ []) (omega arith)
offsets-append k (w ∷ ws) s = ap (◌∷◌ k) (
    offsets-append (k + (length w + 1)) ws s
    ∙ ap (λ x. offsets (k + (length w + 1)) ws ++ x ∷ [])
        (omega (arith, length-append w (0 ∷ flat ws))))

-- The vector that holds the strings `ws`.
abbrev pub layout : List (List ℕ) → ArgVector
layout ws = record { argv = offsets 0 ws; argbuf = flat ws }

pub strings-layout : (ws : List (List ℕ)) → All IsText ws → strings (layout ws) ≡ ws
strings-layout ws h = found [] ws h
