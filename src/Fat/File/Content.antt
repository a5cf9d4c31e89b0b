-- ===== src/Fat/File/Content.antt =====
-- The bytes that a chain of clusters holds, and the bytes from a place in it on.
use mathlib.Core.List.{append_assoc}
use mikanos.Prelude.{
  ℕ, zero, suc, ◌+◌, ◌-◌, ◌<◌, ◌≤◌, ◌≡◌, refl, sym, ◌∙◌, ap, List, [], ◌∷◌, ◌++◌, arith, ◌==◌,
  if◌then◌else◌, length, Bool-cases, inl, inr,
}
use mikanos.Fat.Volume.{Volume, bytes_per_cluster, next_cluster}
use mikanos.Fat.Chain.{Chain}
use mikanos.Fat.File.{slice}

pub length-slice : (bytes : ℕ → ℕ) (off n : ℕ) → length (slice bytes off n) ≡ n
unfolding slice
length-slice bytes off zero = refl
length-slice bytes off (suc n) = ap suc (length-slice bytes (off + 1) n)

pub slice-add :
    (bytes : ℕ → ℕ) (off a b c : ℕ)
    → off + a ≡ c
    → slice bytes off (a + b) ≡ slice bytes off a ++ slice bytes c b
unfolding slice
slice-add bytes off zero b c e =
    ap (λ n. slice bytes off n) (omega arith) ∙ ap (λ o. slice bytes o b) (omega (arith, e))
slice-add bytes off (suc a) b c e =
    ap (slice bytes off) regroup
    ∙ ap (◌∷◌ (bytes off)) (slice-add bytes (off + 1) a b c (omega (arith, e)))
  where
    regroup : suc a + b ≡ suc (a + b)
    regroup = omega arith

-- The bytes of the clusters, in order.
unfoldable pub contents : Volume → List ℕ → List ℕ
contents v [] = []
contents v (c ∷ cs) = slice (v.sector c) 0 (bytes_per_cluster v) ++ contents v cs

-- The bytes from offset `off` of the first cluster on.
pub contents_from : Volume → List ℕ → ℕ → List ℕ
contents_from v [] off = []
contents_from v (c ∷ cs) off = slice (v.sector c) off (bytes_per_cluster v - off) ++ contents v cs

contents_from-zero : (v : Volume) (cs : List ℕ) → contents_from v cs 0 ≡ contents v cs
unfolding contents_from contents
contents_from-zero v [] = refl
contents_from-zero v (c ∷ cs) = ap (λ n. slice (v.sector c) 0 n ++ contents v cs) (omega arith)

-- At offset `off` of cluster `c`, the bytes to come are `bytes`.
pub record Remains (v : Volume) (c off : ℕ) (bytes : List ℕ) : Type 0 where
  pub clusters : List ℕ
  pub chain : Chain v.fat c clusters
  pub inside : off < bytes_per_cluster v
  pub to_come : bytes ≡ contents_from v clusters off

pub Chain-Remains :
    (v : Volume) (c : ℕ) (cs : List ℕ)
    → 0 < bytes_per_cluster v
    → Chain v.fat c cs
    → Remains v c 0 (contents v cs)
Chain-Remains v c cs h k = record {
  clusters = cs;
  chain = k;
  inside = h;
  to_come = sym (contents_from-zero v cs);
}

-- The place after `n` bytes of the cluster, as `Read` moves on.
abbrev pub next_place : Volume → ℕ → ℕ → ℕ → ℕ × ℕ
next_place v c off n = (
  if off + n == bytes_per_cluster v then next_cluster v.fat c else c,
  if off + n == bytes_per_cluster v then 0 else off + n,
)

-- Reading `n` bytes that the cluster holds, up to its end at most.
pub record IsAdvanced (v : Volume) (c off n : ℕ) (bytes : List ℕ) : Type 0 where
  pub more : List ℕ
  pub splits : bytes ≡ slice (v.sector c) off n ++ more
  pub remains : Remains v (next_place v c off n).0 (next_place v c off n).1 more

-- A place with a byte to come is in a cluster.
record IsInside (v : Volume) (c off : ℕ) (bytes : List ℕ) : Type 0 where
  others : List ℕ
  chain : Chain v.fat (next_cluster v.fat c) others
  to_come : bytes ≡ slice (v.sector c) off (bytes_per_cluster v - off) ++ contents v others
  here : Chain v.fat c (c ∷ others)

Remains-IsInside :
    (v : Volume) (c off : ℕ) (bytes cs : List ℕ)
    → Chain v.fat c cs
    → bytes ≡ contents_from v cs off
    → 0 < length bytes
    → IsInside v c off bytes
unfolding contents_from
Remains-IsInside v c off bytes [] k e h = absurd (omega (arith, ap length e))
Remains-IsInside v c off bytes (d ∷ cs) (same, l, f, k) e h = record {
  others = cs;
  chain = rw same k;
  to_come = rw same e;
  here = (refl, rw same l, rw same f, rw same k);
}

pub Remains-advance :
    (v : Volume) (c off n : ℕ) (bytes : List ℕ)
    → Remains v c off bytes
    → 0 < length bytes
    → n ≤ bytes_per_cluster v - off
    → IsAdvanced v c off n bytes
unfolding contents_from
Remains-advance v c off n bytes k h fits =
    let i = Remains-IsInside v c off bytes k.clusters k.chain k.to_come h in
    elim (Bool-cases (off + n == bytes_per_cluster v)) [
      | inl full ↦ record {
        more = contents v i.others;
        splits =
            i.to_come
            ∙ ap (λ m. slice (v.sector c) off m ++ contents v i.others) (ground (arith, k.inside));
        remains =
            rw full
              (Chain-Remains v (next_cluster v.fat c) i.others (omega (arith, k.inside)) i.chain);
      }
      | inr short ↦
          let left : ℕ = bytes_per_cluster v - (off + n) in
          let inside : off + n < bytes_per_cluster v = ground (arith, k.inside) in
          record {
            more = slice (v.sector c) (off + n) left ++ contents v i.others;
            splits =
                i.to_come
                ∙ ap (λ m. slice (v.sector c) off m ++ contents v i.others) (omega (arith, inside))
                ∙ ap (λ s. s ++ contents v i.others)
                    (slice-add (v.sector c) off n left (off + n) refl)
                ∙ append_assoc (slice (v.sector c) off n) _ _;
            remains = rw short (record {
              clusters = c ∷ i.others;
              chain = i.here;
              inside = inside;
              to_come = refl;
            });
          }
    ]
