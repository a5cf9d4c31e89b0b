-- ===== src/Usb/Ring/Tests.antt =====
-- A ring of four blocks, filled to the end.
use mikanos.Prelude.{true, List, [], ◌∷◌, arith}
use mikanos.Usb.Ring.{Trb, Ring, zero_trb}
use mikanos.Usb.Ring.Batch.{push_all, IsPushed, push_all-IsPushed}

abbrev ring : Ring
ring = record {
  address = 65536;
  buf = λ i. zero_trb;
  buf_size = 4;
  cycle_bit = true;
  write_index = 0;
}

abbrev blocks : List Trb
blocks =
    record zero_trb { data3 = 1024 }
    ∷ record zero_trb { data3 = 2048 }
    ∷ record zero_trb { data3 = 3072 }
    ∷ []

push_all-IsPushed_example : IsPushed ring blocks (push_all ring blocks)
push_all-IsPushed_example = push_all-IsPushed ring blocks (omega arith) (omega arith) (omega arith)
