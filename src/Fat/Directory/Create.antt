-- ===== src/Fat/Directory/Create.antt =====
-- `CreateFile`: the errors, and the entry that it makes.
pub mod Slot
pub mod Stored
use mathlib.Core.Option
use mikanos.Prelude.{
  ℕ, zero, suc, ◌+◌, ◌<◌, ◌≤◌, ◌≡◌, ◌≢◌, refl, sym, ◌∙◌, ap, subst, Bool, true, false, not, ◌&&◌,
  Option, none, some, List, [], ◌∷◌, ◌++◌, arith, ◌==◌, leb, if◌then◌else◌, length, length-append,
  is_empty, All, Bool-cases, Option-cases, inl, inr, Returns, Returns_mono, ◌>>=◌,
}
use mikanos.Error.{Error, WithError}
use mikanos.Fat.Volume.{Volume, DirectoryEntry, first_cluster}
use mikanos.Fat.Name.Print.{strrchr-none, strrchr-some}
use mikanos.Fat.Directory.{Position, slash, find_file, create_in, create_file}
use mikanos.Fat.Directory.Resolve.{IsElement, join, Resolves, find_file_lem, join-some}

pub length-join :
    (name : List ℕ) (names : List (List ℕ))
    → IsElement name
    → All IsElement names
    → length names < length (join name names)
length-join name [] k ks = k.some_byte
length-join name (next ∷ names) k (k', ks) =
    omega (arith, length-append name (slash ∷ join next names), length-join next names k' ks)

-- `CreateFile` of any path that ends with a slash fails with `kIsDirectory`. Where `FindFile` finds
-- nothing for a path that is not empty, `CreateFile` of that path, a slash and a name without a slash,
-- which is not empty, fails with `kNoSuchEntry`. Nothing changes.
pub create_file-refuses :
    (v : Volume) (path parent filename : List ℕ) (skipped : Bool)
    → is_empty parent ≡ false
    → find_file (suc (length parent)) v parent 0 ≡ some (none, skipped)
    → is_empty filename ≡ false
    → All (λ c. c ≢ slash) filename
    → (create_file v (path ++ slash ∷ [])
        ≡ some (v, record { value = none; error = Error.is_directory }))
      × (create_file v (parent ++ slash ∷ filename)
          ≡ some (v, record { value = none; error = Error.no_such_entry }))
unfolding create_file
create_file-refuses v path parent filename skipped some_parent missing some_name bytes = (
  rw (create_file, strrchr-some path [] slash tt) refl,
  rw (create_file, strrchr-some parent filename slash bytes, some_name, some_parent, missing) refl,
)
