-- ===== src/Far/Store.antt =====
-- moxt/libfar.cpp: what the getters and the size give after any sequence of calls.
use moxt_cpp.Far.{
  Value, int64, double, bool, string, FuncArgResult, find_key, set, seq_far_new, seq_far_size,
  seq_far_set_int, seq_far_set_float, seq_far_set_bool, seq_far_set_string, seq_far_get_int,
  seq_far_get_float, seq_far_get_bool, seq_far_get_string, get_int64, get_double, get_bool,
  get_string, Call, set_int, set_float, set_bool, set_string, clear, call,
}
use mathlib.Core.Logic.{ite, if_pos, if_neg}
use moxt_cpp.Prelude.{
  ◌≡◌, refl, sym, ◌∙◌, ap, ℕ, ◌+◌, false, Option, none, some, List, [], ◌∷◌, Bytes, length,
}
use moxt_cpp.Prelude.Int.{pos}
use moxt_cpp.Prelude.Outcome.{ok, fault, null_pointer}
use moxt_cpp.Prelude.Text.{same_text}
use moxt_cpp.Prelude.Assoc

-- The name and the value that a call sets.
abbrev pub assigned : Call → Option (Bytes × Value)
assigned (set_int key v) = some (key, int64 v)
assigned (set_float key v) = some (key, double v)
assigned (set_bool key v) = some (key, bool v)
assigned (set_string key v) = some (key, string v)
assigned clear = none

abbrev pub overwrite : Bytes → Option (Bytes × Value) → Option Value → Option Value
overwrite key none before = none
overwrite key (some (k, v)) before = ite (same_text k key) (some v) before

-- The value last set for a name since the last `clear`, in calls written from the latest on.
unfoldable pub last_set : Bytes → List Call → Option Value
last_set key [] = none
last_set key (c ∷ calls) = overwrite key (assigned c) (last_set key calls)

-- The number of names set since the last `clear`.
abbrev pub count : Option (Bytes × Value) → List Call → ℕ → ℕ
count none calls before = 0
count (some (k, v)) calls before = before + Assoc.added same_text (last_set k calls)

unfoldable pub names : List Call → ℕ
names [] = 0
names (c ∷ calls) = count (assigned c) calls (names calls)

unfoldable pub run : List Call → FuncArgResult
run [] = seq_far_new
run (c ∷ calls) = call (run calls) c

-- What the four getters give for a name whose value is known.
abbrev pub Reads : FuncArgResult → Bytes → Option Value → Type 0
Reads p key none =
    (seq_far_get_int p key ≡ pos 0)
    × (seq_far_get_float p key ≡ 0)
    × (seq_far_get_bool p key ≡ false)
    × (seq_far_get_string p key ≡ fault null_pointer)
Reads p key (some (int64 v)) =
    (seq_far_get_int p key ≡ v)
    × (seq_far_get_float p key ≡ 0)
    × (seq_far_get_bool p key ≡ false)
    × (seq_far_get_string p key ≡ fault null_pointer)
Reads p key (some (double v)) =
    (seq_far_get_int p key ≡ pos 0)
    × (seq_far_get_float p key ≡ v)
    × (seq_far_get_bool p key ≡ false)
    × (seq_far_get_string p key ≡ fault null_pointer)
Reads p key (some (bool v)) =
    (seq_far_get_int p key ≡ pos 0)
    × (seq_far_get_float p key ≡ 0)
    × (seq_far_get_bool p key ≡ v)
    × (seq_far_get_string p key ≡ fault null_pointer)
Reads p key (some (string v)) =
    (seq_far_get_int p key ≡ pos 0)
    × (seq_far_get_float p key ≡ 0)
    × (seq_far_get_bool p key ≡ false)
    × (seq_far_get_string p key ≡ ok (v, length v))

find_key-set :
    (k key : Bytes) (v : Value) (p : FuncArgResult)
    → find_key key (set k v p) ≡ overwrite key (some (k, v)) (find_key key p)
unfolding find_key set
find_key-set k key v p =
    elim (same_text k key)
      as (λ d. find_key key (set k v p) ≡ overwrite key (some (k, v)) (find_key key p)) [
        | yes e ↦
            rw (if_pos (same_text k key) e (some v) (find_key key p), sym e)
              (Assoc.lookup-insert same_text k v p)
        | no n ↦
            rw (if_neg (same_text k key) n (some v) (find_key key p))
              (Assoc.lookup-insert_ne same_text k key v p n)
      ]

-- A call that sets nothing clears; the others overwrite one name.
find_key-call :
    (key : Bytes) (p : FuncArgResult) (c : Call)
    → find_key key (call p c) ≡ overwrite key (assigned c) (find_key key p)
unfolding seq_far_set_int seq_far_set_float seq_far_set_bool seq_far_set_string find_key
    Assoc.lookup
find_key-call key p (set_int k v) = find_key-set k key (int64 v) p
find_key-call key p (set_float k v) = find_key-set k key (double v) p
find_key-call key p (set_bool k v) = find_key-set k key (bool v) p
find_key-call key p (set_string k v) = find_key-set k key (string v) p
find_key-call key p clear = refl

find_key-run : (calls : List Call) (key : Bytes) → find_key key (run calls) ≡ last_set key calls
unfolding run last_set
find_key-run [] key = find_key-call key [] clear
find_key-run (c ∷ calls) key =
    find_key-call key (run calls) c ∙ ap (overwrite key (assigned c)) (find_key-run calls key)

find_key-Reads :
    (p : FuncArgResult) (key : Bytes) (o : Option Value) → find_key key p ≡ o → Reads p key o
unfolding seq_far_get_int seq_far_get_float seq_far_get_bool seq_far_get_string get_int64 get_double
    get_bool get_string
find_key-Reads p key none e = rw e (refl, refl, refl, refl)
find_key-Reads p key (some (int64 v)) e = rw e (refl, refl, refl, refl)
find_key-Reads p key (some (double v)) e = rw e (refl, refl, refl, refl)
find_key-Reads p key (some (bool v)) e = rw e (refl, refl, refl, refl)
find_key-Reads p key (some (string v)) e = rw e (refl, refl, refl, refl)

-- After any sequence of sets and clears, each of the four getters gives the value last set for the
-- name since the last clear when it has the getter's type; otherwise the getters of numbers and
-- Booleans give 0, 0.0 and false, and the one of texts reads through a null pointer.
pub run-Reads : (calls : List Call) (key : Bytes) → Reads (run calls) key (last_set key calls)
run-Reads calls key = find_key-Reads (run calls) key (last_set key calls) (find_key-run calls key)

size-set :
    (k : Bytes) (v : Value) (p : FuncArgResult)
    → seq_far_size (set k v p) ≡ seq_far_size p + Assoc.added same_text (find_key k p)
unfolding seq_far_size set find_key
size-set k v p = Assoc.length-insert same_text k v p

size-call :
    (p : FuncArgResult) (c : Call) (calls : List Call)
    → ((k : Bytes) → find_key k p ≡ last_set k calls)
    → seq_far_size (call p c) ≡ count (assigned c) calls (seq_far_size p)
unfolding seq_far_set_int seq_far_set_float seq_far_set_bool seq_far_set_string seq_far_size
size-call p (set_int k v) calls h = rw (← h k) (size-set k (int64 v) p)
size-call p (set_float k v) calls h = rw (← h k) (size-set k (double v) p)
size-call p (set_bool k v) calls h = rw (← h k) (size-set k (bool v) p)
size-call p (set_string k v) calls h = rw (← h k) (size-set k (string v) p)
size-call p clear calls h = refl

-- After any sequence of sets and clears, the size is the number of names set since the last clear.
pub seq_far_size-run : (calls : List Call) → seq_far_size (run calls) ≡ names calls
unfolding run names seq_far_size
seq_far_size-run [] = refl
seq_far_size-run (c ∷ calls) =
    size-call (run calls) c calls (find_key-run calls)
    ∙ ap (count (assigned c) calls) (seq_far_size-run calls)
