-- ===== src/Usb/Ring/Batch.antt =====
-- A batch of `Push` calls that fits before the end of the ring.
use mikanos.Prelude.{
  ℕ, zero, suc, ◌+◌, ◌-◌, ◌%◌, ◌^◌, ◌<◌, ◌≡◌, refl, ◌∙◌, ap, true, false, not, some, List, [], ◌∷◌,
  arith, ◌==◌, if◌then◌else◌, length, get_elem?, Bool-cases, inl, inr, subst, sym,
}
use mikanos.Usb.Ring.{Trb, Ring, stamp, copy_to_last, link_trb, go_round, push}

-- `Push` of each block in turn.
pub push_all : Ring → List Trb → Ring
push_all r [] = r
push_all r (d ∷ ds) = push_all (push r d) ds

-- The ring `r'` after a batch of `n` blocks, where `ds` are the blocks.
pub record IsPushed (r : Ring) (ds : List Trb) (r' : Ring) : Type 0 where
  pub written :
      (i : ℕ) (d : Trb) → get_elem? ds i ≡ some d → r'.buf (r.write_index + i) ≡ stamp r.cycle_bit d
  pub before : (i : ℕ) → i < r.write_index → r'.buf i ≡ r.buf i
  pub next :
      r'.write_index
      ≡ (if r.write_index + length ds + 1 == r.buf_size then 0 else r.write_index + length ds)
  pub cycle :
      r'.cycle_bit
      ≡ (if r.write_index + length ds + 1 == r.buf_size then not r.cycle_bit else r.cycle_bit)
  pub linked :
      r.write_index + length ds + 1 ≡ r.buf_size
      → r'.buf (r.write_index + length ds) ≡ stamp r.cycle_bit (link_trb r.address)
  pub same_place : (r'.address ≡ r.address) × (r'.buf_size ≡ r.buf_size)

-- One block, before the last slot and into the slot before it.
push-inside :
    (r : Ring) (d : Trb)
    → r.write_index + 2 < r.buf_size
    → r.buf_size < 2 ^ 64
    → push r d ≡ record (copy_to_last r d) { write_index = r.write_index + 1 }
unfolding push go_round
push-inside r d h p =
    let inside : ((r.write_index + 1) == (r.buf_size + 2 ^ 64 - 1) % 2 ^ 64) ≡ false =
      ground arith in
    let exact : (r.write_index + 1) % 2 ^ 64 ≡ r.write_index + 1 = omega arith in
    rw (exact, inside) refl

push-last :
    (r : Ring) (d : Trb)
    → r.write_index + 2 ≡ r.buf_size
    → r.buf_size < 2 ^ 64
    → push r d
      ≡ record (copy_to_last
          (record (copy_to_last r d) { write_index = r.write_index + 1 })
          (link_trb r.address)) { write_index = 0; cycle_bit = not r.cycle_bit }
unfolding push go_round
push-last r d h p =
    let last : ((r.write_index + 1) == (r.buf_size + 2 ^ 64 - 1) % 2 ^ 64) ≡ true = ground arith in
    let exact : (r.write_index + 1) % 2 ^ 64 ≡ r.write_index + 1 = omega arith in
    rw (exact, last) refl

nothing-IsPushed : (r : Ring) → r.write_index + 1 < r.buf_size → IsPushed r [] r
nothing-IsPushed r h = record {
  written = λ i d e. cc;
  before = λ i p. refl;
  next = ground arith;
  cycle = ground arith;
  linked = λ e. absurd (omega arith);
  same_place = (refl, refl);
}

-- What holds of the first block and of the later ones holds of each block of the batch.
get_elem?-cons :
    (P : ℕ → Trb → Type 0) (d : Trb) (ds : List Trb)
    → P 0 d
    → ((i : ℕ) (x : Trb) → get_elem? ds i ≡ some x → P (suc i) x)
    → (i : ℕ) (x : Trb) → get_elem? (d ∷ ds) i ≡ some x
    → P i x
get_elem?-cons P d ds first later zero x e = let same : d ≡ x = cc in subst (P 0) same first
get_elem?-cons P d ds first later (suc i) x e = later i x e

last-IsPushed :
    (r : Ring) (d : Trb)
    → r.write_index + 2 ≡ r.buf_size
    → r.buf_size < 2 ^ 64
    → IsPushed r (d ∷ []) (push r d)
unfolding copy_to_last
last-IsPushed r d h p = rw (push-last r d h p) (record {
  written = get_elem?-cons _ d [] (ground arith) (λ i x e. cc);
  before = λ i q. ground arith;
  next = ground arith;
  cycle = ground arith;
  linked = λ e. ground arith;
  same_place = (refl, refl);
})

-- The rest of a batch after a block that does not come to the last slot.
more-IsPushed :
    (r r' : Ring) (d : Trb) (ds : List Trb)
    → IsPushed (record (copy_to_last r d) { write_index = r.write_index + 1 }) ds r'
    → IsPushed r (d ∷ ds) r'
unfolding copy_to_last
more-IsPushed r r' d ds k = record {
  written =
      get_elem?-cons (λ i x. r'.buf (r.write_index + i) ≡ stamp r.cycle_bit x) d ds
        (ap r'.buf (omega arith) ∙ k.before r.write_index (omega arith) ∙ ground arith)
        (λ i x e. ap r'.buf (omega arith) ∙ k.written i x e);
  before = λ i q. k.before i (omega arith) ∙ ground arith;
  next = k.next ∙ ground arith;
  cycle = k.cycle ∙ ground arith;
  linked = λ e. ap r'.buf (omega arith) ∙ k.linked (omega arith);
  same_place = k.same_place;
}

-- A batch that ends at or before the last slot, from an index before that slot in a ring of fewer
-- than 2^64 blocks: each block stands in its place with the producer's cycle bit, the blocks before
-- are as they were, and the index is behind the batch. When the batch reaches the last slot, that
-- slot links to the start of the ring, the index is 0 and the cycle bit has changed.
pub push_all-IsPushed :
    (r : Ring) (ds : List Trb)
    → r.write_index + 1 < r.buf_size
    → r.write_index + length ds < r.buf_size
    → r.buf_size < 2 ^ 64
    → IsPushed r ds (push_all r ds)
unfolding push_all copy_to_last
push_all-IsPushed r [] h fits p = nothing-IsPushed r h
push_all-IsPushed r (d ∷ []) h fits p = elim (Bool-cases (r.write_index + 2 == r.buf_size)) [
  | inl last ↦ last-IsPushed r d (ground arith) p
  | inr early ↦
      let inside : r.write_index + 2 < r.buf_size = ground arith in
      rw (push-inside r d inside p) (
        more-IsPushed r _ d [] (
          nothing-IsPushed (record (copy_to_last r d) { write_index = r.write_index + 1 })
            (omega arith)))
]
push_all-IsPushed r (d ∷ e ∷ ds) h fits p =
    let inside : r.write_index + 2 < r.buf_size = omega arith in
    subst (λ x. IsPushed r (d ∷ e ∷ ds) (push_all x (e ∷ ds))) (sym (push-inside r d inside p))
      (more-IsPushed r _ d (e ∷ ds) (
        push_all-IsPushed (record (copy_to_last r d) { write_index = r.write_index + 1 }) (e ∷ ds)
          (omega arith) (omega arith) p))
