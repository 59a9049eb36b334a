-- ===== src/CleanList/Tests.antt =====
-- A bank with two nodes, of which one holds block 7, and lists just set up.
use fast2016_ftl.Common.{ℕ, ◌+◌, ◌*◌, ◌≡◌, refl, [], ◌∷◌, ◌++◌, arith, Ends}
use fast2016_ftl.Params.{num_banks, dram_base}
use fast2016_ftl.Dram.{Dram, read_dram_32, write_dram_32, real_addr}
use fast2016_ftl.CleanList.{ListData, clean_list_init, clean_list_push, clean_list_pop}
use fast2016_ftl.CleanList.Chain.{Row}
use fast2016_ftl.CleanList.Queue.{Holds, Untouched}
use fast2016_ftl.CleanList.Push.{clean_list_push-Holds}
use fast2016_ftl.CleanList.Pop.{clean_list_pop-Holds}
use fast2016_ftl.CleanList.Init.{clean_list_init-Holds}

abbrev first : ℕ
first = dram_base + 16

abbrev second : ℕ
second = dram_base + 24

abbrev one_used : ListData
one_used = record {
  clean_list_head = λ b. first;
  clean_list_tail = λ b. first;
  clean_list_unused_nodes = λ b. second;
  size = λ b. 1;
}

abbrev blank : Dram
blank a = 0

abbrev memory : Dram
memory = write_dram_32 first 7 blank

one_used-Holds : Holds one_used 0 first 2 (7 ∷ []) memory
unfolding read_dram_32 write_dram_32 real_addr
one_used-Holds = record {
  bs = first ∷ [];
  fs = second ∷ [];
  queue = record {
    row = record { aligned = omega arith; above = omega arith; below = omega arith };
    used = (refl, omega arith, refl);
    free = (refl, omega arith, refl);
    last = refl;
    size = refl;
    distinct = ((omega arith, tt), (tt, tt));
    total = refl;
  };
  blocks = refl;
}

-- The same nodes, both unused.
abbrev none_used : ListData
none_used = record {
  clean_list_head = λ b. 0;
  clean_list_tail = λ b. 0;
  clean_list_unused_nodes = λ b. first;
  size = λ b. 0;
}

two_each : Row first (2 * num_banks)
two_each = record { aligned = omega arith; above = omega arith; below = omega arith }

clean_list_push-Holds_example :
    Ends
      (λ (d', m').
        Holds d' 0 first 2 ((7 ∷ []) ++ 9 ∷ []) m' × Untouched one_used 0 first 2 memory d' m')
      (clean_list_push one_used 0 9 memory)
clean_list_push-Holds_example =
    clean_list_push-Holds one_used 0 first 2 memory 9 (omega arith) (7 ∷ []) one_used-Holds
      (omega arith)

clean_list_pop-Holds_example :
    Ends
      (λ (y, d', m').
        (y ≡ 7) × Holds d' 0 first 2 [] m' × Untouched one_used 0 first 2 memory d' m')
      (clean_list_pop one_used 0 memory)
clean_list_pop-Holds_example = clean_list_pop-Holds one_used 0 first 2 memory 7 [] one_used-Holds

clean_list_init-Holds_example :
    Holds
      (clean_list_init none_used first 2 memory).0
      5
      (first + 8 * (2 * 5))
      2
      []
      (clean_list_init none_used first 2 memory).1
clean_list_init-Holds_example =
    clean_list_init-Holds none_used first 2 memory (omega arith) two_each 5 (omega arith)

-- The row of one node, which is used.
full-Holds : Holds (record one_used { clean_list_unused_nodes = λ b. 0 }) 0 first 1 (7 ∷ []) memory
unfolding read_dram_32 write_dram_32 real_addr
full-Holds = record {
  bs = first ∷ [];
  fs = [];
  queue = record {
    row = record { aligned = omega arith; above = omega arith; below = omega arith };
    used = (refl, omega arith, refl);
    free = refl;
    last = refl;
    size = refl;
    distinct = (tt, tt);
    total = refl;
  };
  blocks = refl;
}
