-- ===== src/SkipList/Heap.antt =====
-- moxt/skiplist/Node.h: `Node`, with the memory that nodes and their arrays of forward pointers
-- stand in. A pointer is an address; an address without a node is not live. The array of a node has
-- `slots` entries, an entry is `none` until it is assigned, and a read of such an entry, an access
-- behind the array and an access through a pointer that is not live are faults.
use moxt_cpp.Prelude.{ℕ, suc, Option, none, some, ltb, if◌then◌else◌}
use moxt_cpp.Prelude.Int.{ℤ}
use moxt_cpp.Prelude.Outcome.{Outcome, ok, fault, uninitialised, bad_index, dangling, ◌>>=◌}
use moxt_cpp.Prelude.Put.{put, assign}

pub record Node : Type 0 where
  pub key : ℤ
  pub value : ℤ
  pub slots : ℕ
  pub node_level : ℕ

pub record Memory : Type 0 where
  pub nodes : ℕ → Option Node
  pub arrays : ℕ → ℕ → Option ℕ
  pub next_address : ℕ

abbrev pub empty : Memory
empty = record { nodes = λ p. none; arrays = λ p i. none; next_address = 1 }

abbrev pub or_dangling : Option Node → Outcome Node
or_dangling none = fault dangling
or_dangling (some n) = ok n

abbrev pub or_uninitialised : Option ℕ → Outcome ℕ
or_uninitialised none = fault uninitialised
or_uninitialised (some p) = ok p

unfoldable pub load : ℕ → Memory → Outcome Node
load p m = or_dangling (m.nodes p)

-- `p->key`, `p->value`
unfoldable pub get_key : ℕ → Memory → Outcome ℤ
get_key p m = do n ← load p m; ok n.key

unfoldable pub get_value : ℕ → Memory → Outcome ℤ
get_value p m = do n ← load p m; ok n.value

-- `p->value = v`
unfoldable pub set_value : ℕ → ℤ → Memory → Outcome Memory
set_value p v m = do
  n ← load p m
  ok (record m { nodes = put p (some (record n { value = v })) m.nodes })

-- `p->forward[i]`
unfoldable pub get_forward : ℕ → ℕ → Memory → Outcome ℕ
get_forward p i m = do
  n ← load p m
  (if ltb i n.slots then or_uninitialised (m.arrays p i) else fault bad_index)

-- `p->forward[i] = q`
unfoldable pub write : ℕ → ℕ → ℕ → Memory → Memory
write p i q m = record m { arrays = assign p (put i (some q) (m.arrays p)) m.arrays }

unfoldable pub set_forward : ℕ → ℕ → ℕ → Memory → Outcome Memory
set_forward p i q m = do
  n ← load p m
  (if ltb i n.slots then ok (write p i q m) else fault bad_index)

-- A node at an address that was never given before, with an array of no assigned entry.
unfoldable pub new_node : Node → Memory → ℕ × Memory
new_node n m = (
  m.next_address,
  record {
    nodes = put m.next_address (some n) m.nodes;
    arrays = assign m.next_address (λ i. none) m.arrays;
    next_address = suc m.next_address;
  },
)

-- `delete p`, with the array
unfoldable pub cleared : ℕ → Memory → Memory
cleared p m = record m { nodes = put p none m.nodes; arrays = assign p (λ i. none) m.arrays }

unfoldable pub delete : ℕ → Memory → Outcome Memory
delete p m = do n ← load p m; ok (cleared p m)
