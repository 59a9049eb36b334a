-- ===== src/CleanList.antt =====
-- The list of the clean log blocks of each bank: `ftl_page_mapped/cleanList.c`, with the types
-- `logListNode` and `listData`. A node is two words of DRAM, the block's number and the address of
-- the next node; the nodes that hold no block are linked in a list of their own.
pub mod Chain
pub mod Writes
pub mod Queue
pub mod Pushed
pub mod Push
pub mod Pop
pub mod Rows
pub mod Init
pub mod Apart
mod Tests
use fast2016_ftl.Common.{
  ℕ, zero, suc, ◌+◌, ◌-◌, Option, none, some, leb, ◌==◌, if◌then◌else◌, ◌>>=◌, u32, sub32,
}
use fast2016_ftl.Params.{num_banks, dram_base, dram_size}
use fast2016_ftl.Dram.{Dram, read_dram_32, write_dram_32}

pub record ListData : Type 0 where
  pub clean_list_head : ℕ → ℕ
  pub clean_list_tail : ℕ → ℕ
  pub clean_list_unused_nodes : ℕ → ℕ
  pub size : ℕ → ℕ

-- `a[bank] = v`
abbrev pub put : (ℕ → ℕ) → ℕ → ℕ → ℕ → ℕ
put a bank v b = if b == bank then v else a b

-- `&node->next`; `&node->lbn` is the address of the node.
abbrev pub next_of : ℕ → ℕ
next_of node = u32 (node + 4)

-- The inner loop of `cleanListInit`: `k` nodes but the last are linked to their neighbours. It
-- returns the last node.
pub link_nodes : ℕ → ℕ → Dram → ℕ × Dram
link_nodes zero node m = (node, m)
link_nodes (suc k) node m =
    link_nodes k (u32 (node + 8)) (write_dram_32 (next_of node) (u32 (node + 8)) m)

init_banks : ℕ → ListData → ℕ → ℕ → ℕ → Dram → ListData × Dram
init_banks zero d bank addr num_nodes_per_bank m = (d, m)
init_banks (suc k) d bank addr num_nodes_per_bank m =
    let linked = link_nodes (num_nodes_per_bank - 1) addr m in
    let d' : ListData = record {
      clean_list_unused_nodes = put d.clean_list_unused_nodes bank addr;
      clean_list_head = put d.clean_list_head bank 0;
      clean_list_tail = put d.clean_list_tail bank 0;
      size = put d.size bank 0;
    } in
    init_banks k d' (suc bank) (u32 (linked.0 + 8)) num_nodes_per_bank
      (write_dram_32 (next_of linked.0) 0 linked.1)

-- With `num_nodes_per_bank` at least 1.
pub clean_list_init : ListData → ℕ → ℕ → Dram → ListData × Dram
clean_list_init d start_addr num_nodes_per_bank m =
    init_banks num_banks d 0 start_addr num_nodes_per_bank m

-- `cleanListSize`
unfoldable pub clean_list_size : ListData → ℕ → ℕ
clean_list_size d bank = d.size bank

-- The test before each write; `none` stands for the `while(1)` that stops the firmware.
abbrev pub checked_write : ℕ → ℕ → Dram → Option Dram
checked_write a v m = if leb (dram_base + dram_size) a then none else some (write_dram_32 a v m)

pub clean_list_push : ListData → ℕ → ℕ → Dram → Option (ListData × Dram)
clean_list_push d bank log_lbn m = if d.clean_list_unused_nodes bank == 0 then none else do
  let new_node = d.clean_list_unused_nodes bank
  let unused = put d.clean_list_unused_nodes bank (read_dram_32 (next_of new_node) m)
  m1 ← checked_write new_node log_lbn m
  m2 ← checked_write (next_of new_node) 0 m1
  let tail = d.clean_list_tail bank
  m3 ← if tail == 0 then some m2 else checked_write (next_of tail) new_node m2
  let head = if d.clean_list_head bank == 0 then new_node else d.clean_list_head bank
  let d' : ListData = record {
    clean_list_head = put d.clean_list_head bank head;
    clean_list_tail = put d.clean_list_tail bank new_node;
    clean_list_unused_nodes = unused;
    size = put d.size bank (u32 (d.size bank + 1));
  }
  some (d', m3)

pub clean_list_pop : ListData → ℕ → Dram → Option (ℕ × ListData × Dram)
clean_list_pop d bank m = if d.clean_list_head bank == 0 then none else do
  let head = d.clean_list_head bank
  let tail = if head == d.clean_list_tail bank then 0 else d.clean_list_tail bank
  let log_lbn = read_dram_32 head m
  let new_head = read_dram_32 (next_of head) m
  m1 ← checked_write (next_of head) (d.clean_list_unused_nodes bank) m
  let d' : ListData = record {
    clean_list_head = put d.clean_list_head bank new_head;
    clean_list_tail = put d.clean_list_tail bank tail;
    clean_list_unused_nodes = put d.clean_list_unused_nodes bank head;
    size = put d.size bank (sub32 (d.size bank) 1);
  }
  if d.size bank == 0 then none else some (log_lbn, d', m1)
