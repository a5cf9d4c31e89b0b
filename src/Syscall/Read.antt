-- ===== src/Syscall/Read.antt =====
-- What is read from a file that has just been opened.
use mikanos.Prelude.{
  ℕ, zero, suc, [], ◌∷◌, ◌+◌, ◌-◌, ◌%◌, ◌^◌, ◌<◌, ◌≡◌, refl, sym, ◌∙◌, ap, subst, min, Bool, true,
  false, not, ◌&&◌, ◌==◌, Option, none, some, List, take, drop, length, ltb, if◌then◌else◌, All,
  Returns, Returns_mono, Returns-map, arith,
}
use native.Mathlib.Nat.{mod-eq_of_lt}
use mathlib.Core.Option.{some-ne-none}
use mikanos.Fat.Volume.{Volume}
use mikanos.Fat.File.{FileDescriptor, new_descriptor, read}
use mikanos.Fat.File.Cursor.{IsFile, IsCursor, IsReadTo, read_lem, new_descriptor-IsCursor}
use mikanos.Fat.Directory.{Position, directory, entry_at}
use mikanos.Fat.Directory.Resolve.{IsElement, join, Resolves}
use mikanos.Syscall.{
  Result, no_error, file_of, lookup, to_fd, set_file, stdin_name, same_text, OpenedFile, open_file,
  read_file,
}
use mikanos.Syscall.Open.{IsOpened, open_file-IsOpened}

-- `ReadFile` has put `content` into the buffer.
pub record HasRead (v : Volume) (files : List (Option OpenedFile)) (fd : ℕ) (p : Position)
    (d : FileDescriptor) (count : ℕ) (content : List ℕ)
    (r : List (Option OpenedFile) × (List ℕ × Result)) : Type 0 where
  pub success : r.1.1.error ≡ no_error
  pub value : r.1.1.value ≡ min count ((entry_at v p).file_size - d.rd_off)
  pub bytes : r.1.0 ≡ take (min count ((entry_at v p).file_size - d.rd_off)) (drop d.rd_off content)
  pub next : FileDescriptor
  pub kept : file_of r.0 fd ≡ some (p, next)
  pub moved : next.rd_off ≡ d.rd_off + r.1.1.value
  pub cursor : IsCursor v (entry_at v p) content next

lookup_file :
    (files : List (Option OpenedFile)) (fd : ℕ) (f : OpenedFile)
    → fd < 2 ^ 31
    → file_of files fd ≡ some f
    → lookup files fd ≡ some (fd, f)
lookup_file files fd f h e =
    let whole : fd % 2 ^ 32 ≡ fd = mod-eq_of_lt (omega arith) in
    let test : ltb fd (2 ^ 31) ≡ true = ground arith in
    let here : to_fd fd ≡ some fd =
      ap (λ x. if ltb x (2 ^ 31) then some x else none) whole
      ∙ ap (λ b. if b then some fd else none) test in
    ap
      (λ o. elim o [
        | none ↦ none
        | some i ↦ elim (file_of files i) [ none ↦ none | some g ↦ some (i, g) ]
      ])
      here
    ∙ ap (λ o. elim o [ none ↦ none | some g ↦ some (fd, g) ]) e

file_of-set_file :
    (files : List (Option OpenedFile)) (fd : ℕ) (f g : OpenedFile)
    → file_of files fd ≡ some f
    → file_of (set_file files fd g) fd ≡ some g
file_of-set_file [] fd f g e = absurd (some-ne-none f (sym e))
file_of-set_file (x ∷ files) zero f g e = refl
file_of-set_file (x ∷ files) (suc fd) f g e = file_of-set_file files fd f g e

pub read_file_lem :
    (v : Volume) (files : List (Option OpenedFile)) (fd : ℕ) (p : Position) (d : FileDescriptor)
    (count : ℕ) (content : List ℕ)
    → fd < 2 ^ 31
    → file_of files fd ≡ some (p, d)
    → IsFile v (entry_at v p) content
    → IsCursor v (entry_at v p) content d
    → Returns (read_file v files fd count) (HasRead v files fd p d count content)
unfolding read_file
read_file_lem v files fd p d count content h e k c =
    rw (read_file, lookup_file files fd (p, d) h e)
      (Returns-map (read v (entry_at v p) d count) _ (IsReadTo v (entry_at v p) content d count) _
        (read_lem v (entry_at v p) content d count k c)
        (λ r t. record {
          success = refl;
          value = t.total;
          bytes = t.data_read;
          next = r.0;
          kept = file_of-set_file files fd (p, d) (p, r.0) e;
          moved = t.moved;
          cursor = t.cursor;
        }))

-- Where the file stands in its chain of clusters, and the task has fewer than 2^31 files:
-- `OpenFile` of a path of names without slashes, of 1 to 12 bytes each, other than `@stdin`, that
-- stands for its entry, which is a directory or has no name behind it, succeeds, with the lowest
-- number that was free. `ReadFile` of that number then succeeds and gives the first bytes of the
-- file, at most `count`, and leaves the descriptor behind them.
pub read_file-open_file :
    (o_creat : ℕ) (v : Volume) (files : List (Option OpenedFile)) (name : List ℕ)
    (names : List (List ℕ)) (flags : ℕ) (p : Position) (skipped : Bool) (count : ℕ)
    (content : List ℕ)
    → IsElement name
    → All IsElement names
    → same_text (join name names) stdin_name ≡ false
    → Resolves v 0 name names (some p, skipped)
    → (not ((entry_at v p).attr == directory) && skipped) ≡ false
    → IsFile v (entry_at v p) content
    → length files < 2 ^ 31
    → Returns (open_file o_creat v files (join name names) flags) (λ (w, (opened, r)).
      IsOpened v files p (w, (opened, r))
      × Returns
          (read_file w opened r.value count)
          (HasRead v opened r.value p new_descriptor count content))
read_file-open_file o_creat v files name names flags p skipped count content k ks file x whole
      stored few =
    Returns_mono (open_file o_creat v files (join name names) flags) (IsOpened v files p) _
      (λ (w, (opened, r)) h. (
        h,
        subst
            (λ u.
              Returns (read_file u opened r.value count)
                (HasRead v opened r.value p new_descriptor count content))
            (sym h.same_volume)
            (read_file_lem v opened r.value p new_descriptor count content
              (omega (arith, h.added.near)) h.added.added stored
              (new_descriptor-IsCursor v (entry_at v p) content stored)),
      ))
      (open_file-IsOpened o_creat v files name names flags k ks file p skipped x whole)
