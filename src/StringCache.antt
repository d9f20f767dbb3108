-- ===== src/StringCache.antt =====
-- moxt/libmisc.cpp: `readableStringCache`, a map from keys to strings on the heap, and the calls
-- on it. A key is the 64-bit pattern of an int64_t. The heap is a list of the live strings by
-- address; `new` takes an address that was never given before, and `delete` or a read of an
-- address that is not live is the fault `dangling`.
pub mod Owned
pub mod Run
mod Tests
use native.Mathlib.Decide.{ℕ_discrete}
use moxt_cpp.Prelude.{
  ℕ, suc, ◌+◌, ◌%◌, ◌^◌, Bool, true, false, Option, none, some, List, [], ◌∷◌, Bytes, length,
}
use moxt_cpp.Prelude.Outcome.{Outcome, ok, fault, dangling, ◌>>=◌}
use moxt_cpp.Prelude.Assoc

pub record Memory : Type 0 where
  pub strings : List (ℕ × Bytes)
  pub next_address : ℕ

-- `*p`
unfoldable pub at : ℕ → Memory → Option Bytes
at p memory = Assoc.lookup ℕ_discrete p memory.strings

abbrev pub live : {A : Type 0} → Option Bytes → A → Outcome A
live none a = fault dangling
live (some s) a = ok a

-- `new std::string(value, valueLen)`
unfoldable pub new_string : Bytes → Memory → ℕ × Memory
new_string s memory = (
  memory.next_address,
  record {
    strings = Assoc.insert ℕ_discrete memory.next_address s memory.strings;
    next_address = suc memory.next_address;
  },
)

-- `delete p`
unfoldable pub drop_string : ℕ → Memory → Memory
drop_string p memory = record memory { strings = Assoc.erase ℕ_discrete p memory.strings }

unfoldable pub delete : ℕ → Memory → Outcome Memory
delete p memory = live (at p memory) (drop_string p memory)

abbrev pub or_dangling : Option Bytes → Outcome Bytes
or_dangling none = fault dangling
or_dangling (some s) = ok s

-- `readableStringCache`, the heap, and `readableStringCacheKey`.
pub record Cache : Type 0 where
  pub pointers : List (ℕ × ℕ)
  pub memory : Memory
  pub next_key : ℕ

abbrev pub empty : Cache
empty = record { pointers = []; memory = record { strings = []; next_address = 1 }; next_key = 0 }

unfoldable pub pointer : ℕ → Cache → Option ℕ
pointer key c = Assoc.lookup ℕ_discrete key c.pointers

-- `fetch_add(1)`: the key, and the counter one up.
unfoldable pub seq_get_next_cache_key : Cache → ℕ × Cache
seq_get_next_cache_key c = (c.next_key, record c { next_key = (c.next_key + 1) % 2 ^ 64 })

-- The entry for the key points to a new string.
unfoldable pub store : ℕ → Bytes → Memory → Cache → Cache
store key s memory c =
    let allocated = new_string s memory in
    record c { pointers = Assoc.insert ℕ_discrete key allocated.0 c.pointers; memory = allocated.1 }

abbrev pub replace : ℕ → Bytes → Option ℕ → Cache → Outcome Cache
replace key s none c = ok (store key s c.memory c)
replace key s (some p) c = do m ← delete p c.memory; ok (store key s m c)

abbrev pub read_pointer : Option ℕ → Cache → Outcome (Option Bytes)
read_pointer none c = ok none
read_pointer (some p) c = do s ← or_dangling (at p c.memory); ok (some s)

-- The cache afterwards and the text behind the pointer that is returned.
unfoldable pub seq_set_string_in_cache : ℕ → Bytes → Cache → Outcome (Cache × Option Bytes)
seq_set_string_in_cache key s c = do
  c' ← replace key s (pointer key c) c
  text ← read_pointer (pointer key c') c'
  ok (c', text)

-- `none` is the null pointer.
unfoldable pub seq_get_string_in_cache : ℕ → Cache → Outcome (Option Bytes)
seq_get_string_in_cache key c = read_pointer (pointer key c) c

abbrev pub release : ℕ → Option ℕ → Cache → Outcome (Cache × Bool)
release key none c = ok (c, false)
release key (some p) c = do
  m ← delete p c.memory
  ok (record c { pointers = Assoc.erase ℕ_discrete key c.pointers; memory = m }, true)

unfoldable pub seq_free_string_in_cache : ℕ → Cache → Outcome (Cache × Bool)
seq_free_string_in_cache key c = release key (pointer key c) c

-- The calls that change the cache.
pub data Call : Type 0 where
  set_string : ℕ → Bytes → Call
  free_string : ℕ → Call

abbrev pub step : Call → Cache → Outcome Cache
step (set_string key s) c = do r ← seq_set_string_in_cache key s c; ok r.0
step (free_string key) c = do r ← seq_free_string_in_cache key c; ok r.0

-- Calls one after another, the latest first in the list.
unfoldable pub run : List Call → Outcome Cache
run [] = ok empty
run (call ∷ calls) = do c ← run calls; step call c
