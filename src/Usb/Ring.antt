-- ===== src/Usb/Ring.antt =====
-- src/kernel/usb/xhci/ring.cpp: the ring of transfer request blocks that the driver fills.
pub mod Batch
pub mod Tests
use mikanos.Prelude.{
  ℕ, zero, suc, ◌+◌, ◌-◌, ◌*◌, ◌/◌, ◌%◌, ◌^◌, bit_and, bit_or, Bool, true, false, not, Option, none,
  some, List, [], ◌∷◌, ◌==◌, if◌then◌else◌,
}
use mikanos.Error.{Error, success, no_enough_memory}

-- The four words of a block.
pub record Trb : Type 0 where
  pub data0 : ℕ
  pub data1 : ℕ
  pub data2 : ℕ
  pub data3 : ℕ

-- `buf_` is an address, null or that of the blocks, and `buf` gives the block at each index.
pub record Ring : Type 0 where
  pub address : ℕ
  pub buf : ℕ → Trb
  pub buf_size : ℕ
  pub cycle_bit : Bool
  pub write_index : ℕ

abbrev pub zero_trb : Trb
zero_trb = record { data0 = 0; data1 = 0; data2 = 0; data3 = 0 }

-- `Initialize`; `memory` is what `AllocArray` returns, and `FreeMem` does nothing.
unfoldable pub initialize : Ring → ℕ → Option ℕ → Ring × Error
initialize r buf_size none = (
  record r { cycle_bit = true; write_index = 0; buf_size = buf_size; address = 0 },
  no_enough_memory,
)
initialize r buf_size (some address) = (
  record r {
    cycle_bit = true;
    write_index = 0;
    buf_size = buf_size;
    address = address;
    buf = λ i. zero_trb;
  },
  success,
)

-- The last word of a block carries the cycle bit.
abbrev pub stamp : Bool → Trb → Trb
stamp cycle_bit d = record d {
  data3 = bit_or (bit_and d.data3 0xfffffffe) (if cycle_bit then 1 else 0);
}

unfoldable pub copy_to_last : Ring → Trb → Ring
copy_to_last r d = record r {
  buf = λ i. if i == r.write_index then stamp r.cycle_bit d else r.buf i;
}

-- `LinkTRB` to an address, with `toggle_cycle`: the address less its low four bits, and type 6.
abbrev pub link_trb : ℕ → Trb
link_trb address = record {
  data0 = address / 2 ^ 4 * 2 ^ 4 % 2 ^ 32;
  data1 = address / 2 ^ 32 % 2 ^ 32;
  data2 = 0;
  data3 = 6 * 2 ^ 10 + 2;
}

-- The end of `Push`, once the index has gone up: at the last slot the ring goes round.
unfoldable pub go_round : Ring → Ring
unfolding copy_to_last
go_round r =
    if r.write_index == (r.buf_size + 2 ^ 64 - 1) % 2 ^ 64
    then record (copy_to_last r (link_trb r.address)) {
      write_index = 0;
      cycle_bit = not r.cycle_bit;
    }
    else r

-- `Push`; the block that it returns a pointer to is the one at the old `write_index`.
unfoldable pub push : Ring → Trb → Ring
unfolding copy_to_last go_round
push r d = go_round (record (copy_to_last r d) { write_index = (r.write_index + 1) % 2 ^ 64 })
