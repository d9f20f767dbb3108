-- ===== src/Globals.antt =====
-- moxt/libmisc.cpp: `globalIntMap` and `globalStringMap`, two maps of a process that pass values
-- between languages. A key and a number are the 64-bit pattern of an int64_t.
pub mod Run
mod Tests
use native.Mathlib.Decide.{ℕ_discrete}
use moxt_cpp.Prelude.{ℕ, Option, none, some, List, [], ◌∷◌, Bytes, length}
use moxt_cpp.Prelude.Assoc

pub record Globals : Type 0 where
  pub ints : List (ℕ × ℕ)
  pub strings : List (ℕ × Bytes)

abbrev pub at_start : Globals
at_start = record { ints = []; strings = [] }

unfoldable pub seq_set_global_int : ℕ → ℕ → Globals → Globals
seq_set_global_int key ptr g = record g { ints = Assoc.insert ℕ_discrete key ptr g.ints }

abbrev pub int_or_zero : Option ℕ → ℕ
int_or_zero none = 0
int_or_zero (some v) = v

unfoldable pub seq_get_global_int : ℕ → Globals → ℕ
seq_get_global_int key g = int_or_zero (Assoc.lookup ℕ_discrete key g.ints)

unfoldable pub seq_set_global_string : ℕ → Bytes → Globals → Globals
seq_set_global_string key str g = record g { strings = Assoc.insert ℕ_discrete key str g.strings }

abbrev pub length_or_zero : Option Bytes → ℕ
length_or_zero none = 0
length_or_zero (some s) = length s

-- The text, `none` for the null pointer, and `*strLen`.
unfoldable pub seq_get_global_string : ℕ → Globals → Option Bytes × ℕ
seq_get_global_string key g =
    let found = Assoc.lookup ℕ_discrete key g.strings in (found, length_or_zero found)

-- Calls, the latest first.
pub data Call : Type 0 where
  set_int : ℕ → ℕ → Call
  set_string : ℕ → Bytes → Call

abbrev pub call : Globals → Call → Globals
call g (set_int key ptr) = seq_set_global_int key ptr g
call g (set_string key s) = seq_set_global_string key s g

unfoldable pub run : List Call → Globals
run [] = at_start
run (c ∷ calls) = call (run calls) c
