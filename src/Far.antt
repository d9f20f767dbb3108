-- ===== src/Far.antt =====
-- moxt/libfar.hpp and moxt/libfar.cpp: `FuncArgResult`, a map from names to values of four types
-- that carries arguments and results between languages, and its `seq_far_*` functions. A double is
-- its 64-bit pattern, which the code only passes on. A name is the text of `key` and `key_len`.
pub mod Store
mod Tests
use moxt_cpp.Prelude.{ℕ, Bool, false, Option, none, some, List, [], Bytes, length}
use moxt_cpp.Prelude.Int.{ℤ, pos}
use moxt_cpp.Prelude.Outcome.{Outcome, ok, fault, null_pointer, ◌>>=◌}
use moxt_cpp.Prelude.Text.{same_text}
use moxt_cpp.Prelude.Assoc

-- `std::variant<int64_t, double, bool, std::string>`
pub data Value : Type 0 where
  int64 : ℤ → Value
  double : ℕ → Value
  bool : Bool → Value
  string : Bytes → Value

-- `data`
abbrev pub FuncArgResult : Type 0
FuncArgResult = List (Bytes × Value)

unfoldable pub find_key : Bytes → FuncArgResult → Option Value
find_key key entries = Assoc.lookup same_text key entries

-- `FuncArgResult::set`, the four overloads
unfoldable pub set : Bytes → Value → FuncArgResult → FuncArgResult
set key value entries = Assoc.insert same_text key value entries

-- `std::get_if`, of the four types, and the value to return without one.
abbrev pub int64_or_zero : Option Value → ℤ
int64_or_zero none = pos 0
int64_or_zero (some (int64 v)) = v
int64_or_zero (some (double v)) = pos 0
int64_or_zero (some (bool v)) = pos 0
int64_or_zero (some (string v)) = pos 0

abbrev pub double_or_zero : Option Value → ℕ
double_or_zero none = 0
double_or_zero (some (int64 v)) = 0
double_or_zero (some (double v)) = v
double_or_zero (some (bool v)) = 0
double_or_zero (some (string v)) = 0

abbrev pub bool_or_false : Option Value → Bool
bool_or_false none = false
bool_or_false (some (int64 v)) = false
bool_or_false (some (double v)) = false
bool_or_false (some (bool v)) = v
bool_or_false (some (string v)) = false

-- `none` is the null pointer.
abbrev pub string_or_null : Option Value → Option Bytes
string_or_null none = none
string_or_null (some (int64 v)) = none
string_or_null (some (double v)) = none
string_or_null (some (bool v)) = none
string_or_null (some (string v)) = some v

unfoldable pub get_int64 : Bytes → FuncArgResult → ℤ
get_int64 key entries = int64_or_zero (find_key key entries)

unfoldable pub get_double : Bytes → FuncArgResult → ℕ
get_double key entries = double_or_zero (find_key key entries)

unfoldable pub get_bool : Bytes → FuncArgResult → Bool
get_bool key entries = bool_or_false (find_key key entries)

unfoldable pub get_string : Bytes → FuncArgResult → Option Bytes
get_string key entries = string_or_null (find_key key entries)

-- `data.clear()`
abbrev pub free : FuncArgResult → FuncArgResult
free entries = []

abbrev pub seq_far_new : FuncArgResult
seq_far_new = []

unfoldable pub seq_far_size : FuncArgResult → ℕ
seq_far_size p = length p

unfoldable pub seq_far_set_int : FuncArgResult → Bytes → ℤ → FuncArgResult
seq_far_set_int p key value = set key (int64 value) p

unfoldable pub seq_far_set_float : FuncArgResult → Bytes → ℕ → FuncArgResult
seq_far_set_float p key value = set key (double value) p

unfoldable pub seq_far_set_bool : FuncArgResult → Bytes → Bool → FuncArgResult
seq_far_set_bool p key value = set key (bool value) p

unfoldable pub seq_far_set_string : FuncArgResult → Bytes → Bytes → FuncArgResult
seq_far_set_string p key value = set key (string value) p

unfoldable pub seq_far_get_int : FuncArgResult → Bytes → ℤ
seq_far_get_int p key = get_int64 key p

unfoldable pub seq_far_get_float : FuncArgResult → Bytes → ℕ
seq_far_get_float p key = get_double key p

unfoldable pub seq_far_get_bool : FuncArgResult → Bytes → Bool
seq_far_get_bool p key = get_bool key p

-- `s->length()` of a string that is not there reads through a null pointer.
abbrev pub deref : Option Bytes → Outcome Bytes
deref none = fault null_pointer
deref (some s) = ok s

-- The text that is returned, and its length in `n`.
unfoldable pub seq_far_get_string : FuncArgResult → Bytes → Outcome (Bytes × ℕ)
seq_far_get_string p key = do s ← deref (get_string key p); ok (s, length s)

-- The calls that change a FuncArgResult.
pub data Call : Type 0 where
  set_int : Bytes → ℤ → Call
  set_float : Bytes → ℕ → Call
  set_bool : Bytes → Bool → Call
  set_string : Bytes → Bytes → Call
  clear : Call

abbrev pub call : FuncArgResult → Call → FuncArgResult
call p (set_int key v) = seq_far_set_int p key v
call p (set_float key v) = seq_far_set_float p key v
call p (set_bool key v) = seq_far_set_bool p key v
call p (set_string key v) = seq_far_set_string p key v
call p clear = free p
