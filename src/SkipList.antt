-- ===== src/SkipList.antt =====
-- moxt/skiplist/skiplist.hpp: `skiplist_t`, the skip list of `fixed12_t` keys and values that holds
-- one side of an order book, on the nodes of SkipList/Heap. Every call works on the whole list; a
-- list is used by one thread at a time. Loops along the forward pointers have fuel, `rounds` or one
-- more than the number of nodes; running out of it is the fault `endless`.
pub mod Heap
pub mod Random
pub mod Chain
pub mod Cells
pub mod Walk
pub mod Order
pub mod Invariant
pub mod Link
pub mod Splice
pub mod Insert
pub mod Place
pub mod Spec
pub mod Calls
pub mod Lookup
pub mod Overwrite
pub mod Update
pub mod Unlink
pub mod Lower
pub mod Remove
pub mod Erase
pub mod Top
pub mod Create
pub mod Free
pub mod Refine
pub mod Beyond
mod Tests
use moxt_cpp.Prelude.{
  ℕ, zero, suc, ◌+◌, ◌-◌, Bool, true, false, Option, none, some, List, [], ◌∷◌, ltb, leb, ◌==◌, not,
  if◌then◌else◌,
}
use moxt_cpp.Prelude.Int.{ℤ, pos, pos_part, ltb_ℤ, eqb_ℤ}
use moxt_cpp.Prelude.Outcome.{Outcome, ok, fault, endless, bad_index, ◌>>=◌}
use moxt_cpp.Prelude.Put.{put}
use Heap.{
  Node, Memory, empty, load, get_key, get_value, set_value, get_forward, set_forward, new_node,
  delete, or_uninitialised,
}
use Random.{new_random, uniform}

-- MAX_LEVEL
abbrev pub max_level : ℕ
max_level = 16

pub record SkipList : Type 0 where
  pub is_forward : Bool
  pub level : ℕ
  pub header : ℕ
  pub footer : ℕ
  pub node_count : ℕ
  pub rnd : ℕ
  pub memory : Memory

-- `isForward ? a < b : a > b`
unfoldable pub precedes : Bool → ℤ → ℤ → Bool
precedes is_forward a b = if is_forward then ltb_ℤ a b else ltb_ℤ b a

-- createNode, for the header and the footer
abbrev pub bare_node : ℕ → ℤ → Node
bare_node level key = record { key = key; value = pos 0; slots = level + 1; node_level = level }

-- createNode, for a key: no array at level 0
abbrev pub key_node : ℕ → ℤ → ℤ → Node
key_node level key value = record {
  key = key;
  value = value;
  slots = if ltb 0 level then level + 1 else 0;
  node_level = level;
}

-- `header->forward[i] = footer` for the `n` first levels
unfoldable pub link_header : ℕ → ℕ → ℕ → Memory → Outcome Memory
link_header zero header footer m = ok m
link_header (suc n) header footer m = do
  m' ← link_header n header footer m
  set_forward header n footer m'

-- The constructor, with createList.
unfoldable pub new_list : ℤ → Bool → Outcome SkipList
new_list footer_key is_forward =
    let footer = new_node (bare_node 0 footer_key) empty in
    let header = new_node (bare_node max_level (pos 0)) footer.1 in
    do
      m ← link_header max_level header.0 footer.0 header.1
      ok (record {
        is_forward = is_forward;
        level = 0;
        header = header.0;
        footer = footer.0;
        node_count = 0;
        rnd = new_random 0x1234_5678;
        memory = m;
      })

-- `while (node->forward[i]->key < key) node = node->forward[i];`
unfoldable pub walk : ℕ → Bool → ℕ → ℕ → ℤ → Memory → Outcome ℕ
walk zero is_forward i node key m = fault endless
walk (suc fuel) is_forward i node key m = do
  next ← get_forward node i m
  k ← get_key next m
  elim (precedes is_forward k key) [ true ↦ walk fuel is_forward i next key m | false ↦ ok node ]

-- `Node<K, V> *update[MAX_LEVEL]`, and an assignment to one of its entries.
abbrev pub Update : Type 0
Update = ℕ → Option ℕ

abbrev pub no_update : Update
no_update i = none

unfoldable pub set_update : ℕ → ℕ → Update → Outcome Update
set_update i node update =
    if ltb i max_level then ok (put i (some node) update) else fault bad_index

unfoldable pub get_update : ℕ → Update → Outcome ℕ
get_update i update = if ltb i max_level then or_uninitialised (update i) else fault bad_index

-- The loop over the levels, from `i` down to 0: the last node, and `update`.
unfoldable pub descend : ℕ → Bool → ℕ → ℕ → ℤ → Memory → Update → Outcome (ℕ × Update)
descend fuel is_forward zero node key m update = do
  last ← walk fuel is_forward zero node key m
  update' ← set_update zero last update
  ok (last, update')
descend fuel is_forward (suc i) node key m update = do
  last ← walk fuel is_forward (suc i) node key m
  update' ← set_update (suc i) last update
  descend fuel is_forward i last key m update'

-- The loop of `search`, which notes no nodes.
unfoldable pub descend_only : ℕ → Bool → ℕ → ℕ → ℤ → Memory → Outcome ℕ
descend_only fuel is_forward zero node key m = walk fuel is_forward zero node key m
descend_only fuel is_forward (suc i) node key m = do
  last ← walk fuel is_forward (suc i) node key m
  descend_only fuel is_forward i last key m

-- The rounds of a loop: one for each node, for the footer, and for the end.
abbrev pub rounds : SkipList → ℕ
rounds s = suc (suc s.node_count)

-- `search`: `none` is the null pointer.
unfoldable pub search : ℤ → SkipList → Outcome (Option ℕ)
search key s = do
  last ← descend_only (rounds s) s.is_forward s.level s.header key s.memory
  node ← get_forward last 0 s.memory
  k ← get_key node s.memory
  ok (if eqb_ℤ k key then some node else none)

-- getRandomLevel: the level and the new seed.
unfoldable pub get_random_level : ℕ → ℕ × ℕ
get_random_level rnd = let r = uniform max_level rnd in (if r.0 == 0 then 1 else r.0, r.1)

-- `newNode->forward[i] = node->forward[i]; node->forward[i] = newNode;` with `node = update[i]`
unfoldable pub link_one : ℕ → ℕ → Update → Memory → Outcome Memory
link_one i new update m = do
  node ← get_update i update
  after ← get_forward node i m
  m' ← set_forward new i after m
  set_forward node i new m'

-- From level `i` down to 0.
unfoldable pub link : ℕ → ℕ → Update → Memory → Outcome Memory
link zero new update m = link_one zero new update m
link (suc i) new update m = do m' ← link_one (suc i) new update m; link i new update m'

-- The level of the new node, the list's level and `update`, from the random level.
abbrev pub raise : ℕ → Update → SkipList → Outcome (ℕ × ℕ × Update)
raise random_level update s =
    if ltb s.level random_level
    then (do
      update' ← set_update (suc s.level) s.header update
      ok (suc s.level, suc s.level, update'))
    else ok (random_level, s.level, update)

-- The new node in its place.
unfoldable pub insert_at : Update → ℤ → ℤ → SkipList → Outcome (SkipList × Bool)
insert_at update key value s =
    let random = get_random_level s.rnd in
    do
      raised ← raise random.0 update s
      let new = new_node (key_node raised.0 key value) s.memory
      m ← link raised.0 new.0 raised.2 new.1
      ok (
        record s { level = raised.1; node_count = suc s.node_count; rnd = random.1; memory = m },
        true,
      )

-- A key that is there already.
unfoldable pub insert_over : ℕ → ℤ → Bool → SkipList → Outcome (SkipList × Bool)
insert_over node value update_if_exists s =
    if update_if_exists
    then (do m ← set_value node value s.memory; ok (record s { memory = m }, true))
    else ok (s, false)

unfoldable pub insert : ℤ → ℤ → Bool → SkipList → Outcome (SkipList × Bool)
insert key value update_if_exists s = do
  found ← descend (rounds s) s.is_forward s.level s.header key s.memory no_update
  node ← get_forward found.0 0 s.memory
  k ← get_key node s.memory
  (if eqb_ℤ k key then insert_over node value update_if_exists s else insert_at found.1 key value s)

-- `for (i = 0; i <= level; ++i)` with `n` levels left, up to a level that passes the node by.
unfoldable pub unlink : ℕ → ℕ → ℕ → Update → Memory → Outcome Memory
unlink zero i node update m = ok m
unlink (suc n) i node update m = do
  before ← get_update i update
  next ← get_forward before i m
  elim (next == node) [
    | true ↦ do
      after ← get_forward node i m
      m' ← set_forward before i after m
      unlink n (suc i) node update m'
    | false ↦ ok m
  ]

-- `while (level > 0 && header->forward[level] == footer) --level;`
unfoldable pub lower : ℕ → ℕ → ℕ → Memory → Outcome ℕ
lower header footer zero m = ok zero
lower header footer (suc level) m = do
  next ← get_forward header (suc level) m
  elim (next == footer) [ true ↦ lower header footer level m | false ↦ ok (suc level) ]

unfoldable pub remove_node : ℕ → Update → SkipList → Outcome (SkipList × Option ℤ)
remove_node node update s = do
  value ← get_value node s.memory
  m ← unlink (suc s.level) 0 node update s.memory
  m' ← delete node m
  level ← lower s.header s.footer s.level m'
  ok (record s { level = level; node_count = s.node_count - 1; memory = m' }, some value)

-- `remove`: the value, or `none` where the answer is false.
unfoldable pub remove : ℤ → SkipList → Outcome (SkipList × Option ℤ)
remove key s = do
  found ← descend (rounds s) s.is_forward s.level s.header key s.memory no_update
  node ← get_forward found.0 0 s.memory
  k ← get_key node s.memory
  (if eqb_ℤ k key then remove_node node found.1 s else ok (s, none))

-- `topN`: at most `n` keys with their values, from the node on.
unfoldable pub top_from : ℕ → ℕ → ℕ → ℕ → Memory → Outcome (List (ℤ × ℤ))
top_from zero n footer node m = fault endless
top_from (suc fuel) zero footer node m = do next ← get_forward node 0 m; ok []
top_from (suc fuel) (suc n) footer node m = do
  next ← get_forward node 0 m
  elim (next == footer) [
    | true ↦ ok []
    | false ↦ do
      key ← get_key next m
      value ← get_value next m
      rest ← top_from fuel n footer next m
      ok ((key, value) ∷ rest)
  ]

unfoldable pub top_n : ℤ → SkipList → Outcome (List (ℤ × ℤ))
top_n n s = top_from (suc s.node_count) (pos_part n) s.footer s.header s.memory

-- `begin` and `next`: `none` is the null pointer.
abbrev pub or_null : ℕ → ℕ → Option ℕ
or_null footer node = if node == footer then none else some node

unfoldable pub begin : SkipList → Outcome (Option ℕ)
begin s = do node ← get_forward s.header 0 s.memory; ok (or_null s.footer node)

unfoldable pub next : Option ℕ → SkipList → Outcome (Option ℕ)
next none s = ok none
next (some node) s = do n ← get_forward node 0 s.memory; ok (or_null s.footer n)

-- The loop of freeList, and the footer after it.
unfoldable pub free_from : ℕ → ℕ → ℕ → Memory → Outcome Memory
free_from zero footer p m = fault endless
free_from (suc fuel) footer p m = elim (p == footer) [
  | true ↦ delete p m
  | false ↦ do q ← get_forward p 0 m; m' ← delete p m; free_from fuel footer q m'
]

unfoldable pub free_list : SkipList → Outcome Memory
free_list s = free_from (suc (suc s.node_count)) s.footer s.header s.memory
