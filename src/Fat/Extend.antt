-- ===== src/Fat/Extend.antt =====
-- `ExtendCluster`: the chain gets the clusters asked for, all of them free before.
use mikanos.Prelude.{
  ℕ, zero, suc, ◌+◌, ◌%◌, ◌^◌, ◌<◌, ◌≤◌, ◌≡◌, ◌≢◌, refl, sym, subst, List, [], ◌∷◌, arith, ◌==◌,
  if◌then◌else◌, length, count, Returns, Returns_mono, Bool-cases, inl, inr, ◌⊎◌,
}
use mikanos.Fat.Volume.{end_of_cluster_chain, next_cluster, set_fat}
use mikanos.Fat.Cluster.{extend_loop, close_chain}
use mikanos.Fat.Chain.{Chain, last_of}

-- How many of `n` entries from `i` on are free.
unfoldable pub count_free : (ℕ → ℕ) → ℕ → ℕ → ℕ
count_free fat i zero = 0
count_free fat i (suc n) = (if fat i == 0 then 1 else 0) + count_free fat (i + 1) n

-- A store of a number that is not 0, into an entry that is not counted as free, keeps the count.
pub count_free-set :
    (fat : ℕ → ℕ) (i n c value : ℕ)
    → 0 < value % 2 ^ 32
    → ((fat c ≢ 0) ⊎ (c < i))
    → count_free (set_fat fat c value) i n ≡ count_free fat i n
unfolding count_free set_fat
count_free-set fat i zero c value h o = refl
count_free-set fat i (suc n) c value h (inl used) =
    ground (arith, count_free-set fat (i + 1) n c value h (inl used))
count_free-set fat i (suc n) c value h (inr below) =
    ground (arith, count_free-set fat (i + 1) n c value h (inr (omega arith)))

-- The chain that ends at `current` goes on through `n` clusters that were free.
pub record IsExtended (limit : ℕ) (fat : ℕ → ℕ) (current candidate n : ℕ) (r : (ℕ → ℕ) × ℕ)
    : Type 0 where
  pub new : List ℕ
  pub size : length new ≡ n
  pub chain : Chain r.0 current (current ∷ new)
  pub were_free : (x : ℕ) → 0 < count x new → (fat x ≡ 0) × (candidate ≤ x) × (x < limit)
  pub others : (x : ℕ) → x ≢ current → count x new ≡ 0 → r.0 x ≡ fat x
  pub ends : r.1 ≡ last_of current new

-- What the second loop of `ExtendCluster` needs to know.
pub record Extending (limit rounds : ℕ) (fat : ℕ → ℕ) (current candidate n : ℕ) : Type 0 where
  pub table_end : candidate + rounds ≡ limit
  pub limit_fits : limit ≤ 0x0ffffff8
  pub candidate_starts : 2 ≤ candidate
  pub current_starts : 2 ≤ current
  pub current_fits : current < 0x0ffffff8
  pub current_taken : (fat current ≢ 0) ⊎ (current < candidate)
  pub enough : n ≤ count_free fat candidate rounds

closed-IsExtended :
    (limit : ℕ) (fat : ℕ → ℕ) (current candidate : ℕ)
    → 2 ≤ current
    → current < 0x0ffffff8
    → IsExtended limit fat current candidate 0 (close_chain (fat, current))
unfolding set_fat next_cluster
closed-IsExtended limit fat current candidate starts fits =
    let at_end : next_cluster (set_fat fat current end_of_cluster_chain) current
        ≡ end_of_cluster_chain =
      ground arith in
    record {
      new = [];
      size = refl;
      chain = (refl, starts, fits, at_end);
      were_free = λ x h. absurd (omega arith);
      others = λ x h e. ground arith;
      ends = refl;
    }

still_taken :
    {A : Type 0} {current candidate : ℕ}
    → (A ⊎ (current < candidate))
    → A ⊎ (current < candidate + 1)
still_taken (inl a) = inl a
still_taken (inr h) = inr (omega arith)

-- A candidate in use is passed over.
skipped-IsExtended :
    (limit : ℕ) (fat : ℕ → ℕ) (current candidate n : ℕ) (r : (ℕ → ℕ) × ℕ)
    → IsExtended limit fat current (candidate + 1) n r
    → IsExtended limit fat current candidate n r
skipped-IsExtended limit fat current candidate n r k = record {
  new = k.new;
  size = k.size;
  chain = k.chain;
  were_free = λ x h. omega (arith, k.were_free x h);
  others = k.others;
  ends = k.ends;
}

-- A free candidate is linked, and the search goes on from it.
linked-IsExtended :
    (limit : ℕ) (fat : ℕ → ℕ) (current candidate n : ℕ) (r : (ℕ → ℕ) × ℕ)
    → 2 ≤ current
    → current < 0x0ffffff8
    → 2 ≤ candidate
    → candidate < limit
    → limit ≤ 0x0ffffff8
    → fat candidate ≡ 0
    → current ≢ candidate
    → IsExtended limit (set_fat fat current candidate) candidate (candidate + 1) n r
    → IsExtended limit fat current candidate (suc n) r
unfolding set_fat next_cluster
linked-IsExtended limit fat current candidate n r starts fits low below limits free apart k =
    let kept : r.0 current ≡ candidate =
      ground (arith, k.others current apart, k.were_free current) in
    let leads : next_cluster r.0 current ≡ candidate = ground arith in
    record {
      new = candidate ∷ k.new;
      size = omega (arith, k.size);
      chain =
          (refl, starts, fits, subst (λ x. Chain r.0 x (candidate ∷ k.new)) (sym leads) k.chain);
      were_free = λ x h. ground (arith, k.were_free x);
      others = λ x h e. ground (arith, k.others x);
      ends = k.ends;
    }

pub extend_loop-IsExtended :
    (limit rounds : ℕ) (fat : ℕ → ℕ) (current candidate n : ℕ)
    → Extending limit rounds fat current candidate n
    → Returns
        (extend_loop rounds fat current candidate n)
        (λ r. IsExtended limit fat current candidate n (close_chain r))
unfolding extend_loop count_free
extend_loop-IsExtended limit rounds fat current candidate zero k =
    closed-IsExtended limit fat current candidate k.current_starts k.current_fits
extend_loop-IsExtended limit zero fat current candidate (suc n) k = absurd (omega (arith, k.enough))
extend_loop-IsExtended limit (suc rounds) fat current candidate (suc n) k =
    elim (Bool-cases (fat candidate == 0)) [
      | inl free ↦
          let apart : current ≢ candidate = ground (arith, k.current_taken) in
          let below : candidate < limit = omega (arith, k.table_end) in
          let same : count_free (set_fat fat current candidate) (candidate + 1) rounds
              ≡ count_free fat (candidate + 1) rounds =
            count_free-set fat (candidate + 1) rounds current candidate
              (omega (arith, k.candidate_starts, k.limit_fits)) (still_taken k.current_taken) in
          rw free (
            Returns_mono
              (extend_loop rounds (set_fat fat current candidate) candidate (candidate + 1) n)
              (λ r.
                IsExtended limit (set_fat fat current candidate) candidate (candidate + 1) n
                  (close_chain r))
              (λ r. IsExtended limit fat current candidate (suc n) (close_chain r))
              (λ r h.
                linked-IsExtended limit fat current candidate n (close_chain r) k.current_starts
                  k.current_fits k.candidate_starts below k.limit_fits (ground arith) apart h)
              (extend_loop-IsExtended limit rounds (set_fat fat current candidate) candidate
                (candidate + 1) n
                (record {
                  table_end = omega (arith, k.table_end);
                  limit_fits = k.limit_fits;
                  candidate_starts = omega (arith, k.candidate_starts);
                  current_starts = k.candidate_starts;
                  current_fits = omega (arith, k.limit_fits);
                  current_taken = inr (omega arith);
                  enough = ground (arith, same, k.enough);
                })))
      | inr used ↦ rw used (
          Returns_mono (extend_loop rounds fat current (candidate + 1) (suc n))
            (λ r. IsExtended limit fat current (candidate + 1) (suc n) (close_chain r))
            (λ r. IsExtended limit fat current candidate (suc n) (close_chain r))
            (λ r h. skipped-IsExtended limit fat current candidate (suc n) (close_chain r) h)
            (extend_loop-IsExtended limit rounds fat current (candidate + 1) (suc n) (record {
              table_end = omega (arith, k.table_end);
              limit_fits = k.limit_fits;
              candidate_starts = omega (arith, k.candidate_starts);
              current_starts = k.current_starts;
              current_fits = k.current_fits;
              current_taken = still_taken k.current_taken;
              enough = ground (arith, k.enough);
            })))
    ]
