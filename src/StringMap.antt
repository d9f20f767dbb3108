-- ===== src/StringMap.antt =====
-- moxt/libmisc.cpp: `seq_ssmap_*`, a map from texts to texts for other languages. Names and values
-- come as `const char *`, texts up to the first zero byte.
pub mod Run
mod Tests
use moxt_cpp.Prelude.{
  ℕ, Bool, true, Option, none, some, List, [], ◌∷◌, Bytes, length, ◌==◌, if◌then◌else◌,
}
use moxt_cpp.Prelude.Text.{same_text}
use moxt_cpp.Prelude.Assoc

abbrev pub StringMap : Type 0
StringMap = List (Bytes × Bytes)

-- `std::string` of a `const char *`
unfoldable pub c_string : Bytes → Bytes
c_string [] = []
c_string (c ∷ s) = if c == 0 then [] else c ∷ c_string s

abbrev pub seq_ssmap_new : StringMap
seq_ssmap_new = []

-- `(*p)[name]`: the value, and the map, in which a missing name now stands with an empty text.
abbrev pub index : Bytes → Option Bytes → StringMap → Bytes × StringMap
index name none p = ([], Assoc.insert same_text name [] p)
index name (some v) p = (v, p)

unfoldable pub seq_ssmap_set : StringMap → Bytes → Bytes → StringMap × Bool
seq_ssmap_set p name value = (Assoc.insert same_text (c_string name) (c_string value) p, true)

-- The text, its length `n`, and the map afterwards. `operator[]` throws no out_of_range.
unfoldable pub seq_ssmap_get : StringMap → Bytes → Bytes × ℕ × StringMap
seq_ssmap_get p name =
    let r = index (c_string name) (Assoc.lookup same_text (c_string name) p) p in
    (r.0, length r.0, r.1)

unfoldable pub seq_ssmap_size : StringMap → ℕ
seq_ssmap_size p = length p

-- Calls, the latest first.
pub data Call : Type 0 where
  set_name : Bytes → Bytes → Call
  get_name : Bytes → Call

abbrev pub call : StringMap → Call → StringMap
call p (set_name name value) = (seq_ssmap_set p name value).0
call p (get_name name) = (seq_ssmap_get p name).2

unfoldable pub run : List Call → StringMap
run [] = seq_ssmap_new
run (c ∷ calls) = call (run calls) c
