-- ===== src/Paging.antt =====
-- src/kernel/paging.hpp and paging.cpp: four levels of page maps. A `PageMapEntry*` to the start of a
-- table is the number of its frame; a page is the frame that holds it.
pub mod Address
pub mod NewPage
pub mod Setup
pub mod Clean
pub mod Copy
pub mod Fault
pub mod Tests
use mathlib.Core.Option
use mikanos.Prelude.{
  ℕ, zero, suc, ◌+◌, ◌-◌, ◌*◌, ◌/◌, ◌%◌, ◌^◌, Bool, true, false, ◌&&◌, Option, none, some, ◌==◌,
  ◌≡◌, arith, if◌then◌else◌, ◌>>=◌,
}
use mikanos.Error.{Error, WithError, is_error}
use mikanos.Memory.{BitmapMemoryManager, allocate, free}

-- A 64-bit word, by the fields of `bits`. `attributes` has the other bits, each at its place: those
-- that the kernel does not name, and those that it names and does not touch.
pub record PageMapEntry : Type 0 where
  pub present : Bool
  pub writable : Bool
  pub user : Bool
  pub huge_page : Bool
  pub attributes : ℕ
  pub addr : ℕ

-- `data = 0`
abbrev pub empty_entry : PageMapEntry
empty_entry = record {
  present = false;
  writable = false;
  user = false;
  huge_page = false;
  attributes = 0;
  addr = 0;
}

-- `data`, and the fields of a word.
abbrev pub data_of : PageMapEntry → ℕ
data_of e =
    (if e.present then 1 else 0)
    + (if e.writable then 2 else 0)
    + (if e.user then 4 else 0)
    + (if e.huge_page then 128 else 0)
    + e.attributes
    + e.addr * 4096

unfoldable pub entry_of : ℕ → PageMapEntry
entry_of w = record {
  present = w % 2 == 1;
  writable = w / 2 % 2 == 1;
  user = w / 4 % 2 == 1;
  huge_page = w / 128 % 2 == 1;
  attributes = w / 8 % 16 * 8 + w / 256 % 16 * 256 + w / 2 ^ 52 * 2 ^ 52;
  addr = w / 4096 % 2 ^ 40;
}

-- The fields of a word, and nothing else, make up the word.
data_of-entry_of : (w : ℕ) → data_of (entry_of w) ≡ w
unfolding entry_of
data_of-entry_of w = ground arith

-- `SetPointer`; the field `addr` has 40 bits. `Pointer` is the field.
abbrev pub set_pointer : PageMapEntry → ℕ → PageMapEntry
set_pointer e frame = record e { addr = frame % 2 ^ 40 }

-- Physical memory: the frames in use, and the 512 words of each frame. `cr3` is the frame of the table
-- of level 4.
pub record Pages : Type 0 where
  pub manager : BitmapMemoryManager
  pub tables : ℕ → ℕ → PageMapEntry
  pub cr3 : ℕ

-- A byte of a frame
abbrev pub byte_at : Pages → ℕ → ℕ → ℕ
byte_at s frame j = data_of (s.tables frame (j / 8)) / 256 ^ (j % 8) % 256

-- A store to an entry.
unfoldable pub set_entry : Pages → ℕ → ℕ → PageMapEntry → Pages
set_entry s table i e = record s {
  tables = λ t j. if t == table && j == i then e else s.tables t j;
}

-- `memset` of a frame
unfoldable pub clear_frame : Pages → ℕ → Pages
clear_frame s frame = record s { tables = λ t j. if t == frame then empty_entry else s.tables t j }

-- A null pointer.
abbrev pub null_map : ℕ
null_map = 0

-- `NewPageMap`
unfoldable pub new_page_map : Pages → Option (Pages × WithError ℕ)
unfolding clear_frame
new_page_map s = do
  (m, frame) ← allocate s.manager 1
  let s' = record s { manager = m }
  some (
      if is_error frame.error
      then (s', record { value = null_map; error = frame.error })
      else (clear_frame s' frame.value, record { value = frame.value; error = Error.success }))

-- `FreePageMap`
unfoldable pub free_page_map : Pages → ℕ → Pages × Error
free_page_map s table = let r = free s.manager table 1 in (record s { manager = r.0 }, r.1)
