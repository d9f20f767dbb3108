-- ===== src/StringMap/Run.antt =====
-- moxt/libmisc.cpp: what a string map gives after any sequence of calls.
use mathlib.Core.Logic.{ite, if_pos, if_neg}
use moxt_cpp.StringMap.{
  StringMap, c_string, index, seq_ssmap_set, seq_ssmap_get, seq_ssmap_size, Call, set_name,
  get_name, run,
}
use moxt_cpp.Prelude.{
  ◌≡◌, refl, sym, ◌∙◌, ap, ◌≢◌, ℕ, ◌+◌, Option, none, some, List, [], ◌∷◌, Bytes, length, arith,
}
use moxt_cpp.Prelude.Text.{same_text}
use moxt_cpp.Prelude.Assoc

abbrev pub or_empty : Option Bytes → Option Bytes
or_empty none = some []
or_empty (some v) = some v

-- The value that a name stands with after calls, where it was ever named.
unfoldable pub entry : Bytes → List Call → Option Bytes
entry name [] = none
entry name (set_name n v ∷ calls) =
    ite (same_text (c_string n) name) (some (c_string v)) (entry name calls)
entry name (get_name n ∷ calls) =
    ite (same_text (c_string n) name) (or_empty (entry name calls)) (entry name calls)

-- How many names the calls named.
abbrev pub named : Call → Bytes
named (set_name n v) = c_string n
named (get_name n) = c_string n

unfoldable pub names : List Call → ℕ
names [] = 0
names (c ∷ calls) = names calls + Assoc.added same_text (entry (named c) calls)

abbrev pub text_of : Option Bytes → Bytes
text_of none = []
text_of (some v) = v

lookup-insert-ite :
    (k name v : Bytes) (p : StringMap)
    → Assoc.lookup same_text name (Assoc.insert same_text k v p)
      ≡ ite (same_text k name) (some v) (Assoc.lookup same_text name p)
lookup-insert-ite k name v p =
    elim (same_text k name)
      as (λ d.
        Assoc.lookup same_text name (Assoc.insert same_text k v p)
        ≡ ite (same_text k name) (some v) (Assoc.lookup same_text name p)) [
          | yes e ↦
              rw (if_pos (same_text k name) e (some v) (Assoc.lookup same_text name p), ← e)
                (Assoc.lookup-insert same_text k v p)
          | no n ↦
              rw (if_neg (same_text k name) n (some v) (Assoc.lookup same_text name p))
                (Assoc.lookup-insert_ne same_text k name v p n)
        ]

ite_is :
    (k name : Bytes) (a b c : Option Bytes)
    → (k ≡ name → a ≡ c)
    → (k ≢ name → b ≡ c)
    → ite (same_text k name) a b ≡ c
ite_is k name a b c f g = elim (same_text k name) as (λ d. ite (same_text k name) a b ≡ c) [
  | yes e ↦ if_pos (same_text k name) e a b ∙ f e
  | no n ↦ if_neg (same_text k name) n a b ∙ g n
]

-- Reading a name changes nothing but that the name is there.
lookup-index :
    (k name : Bytes) (o : Option Bytes) (p : StringMap)
    → Assoc.lookup same_text k p ≡ o
    → Assoc.lookup same_text name (index k o p).1
      ≡ ite
          (same_text k name)
          (or_empty (Assoc.lookup same_text name p))
          (Assoc.lookup same_text name p)
lookup-index k name none p e =
    lookup-insert-ite k name [] p
    ∙ ite_is k name (some []) (Assoc.lookup same_text name p) _
        (λ h.
          rw
            (
              if_pos (same_text k name) h (or_empty (Assoc.lookup same_text name p))
                  (Assoc.lookup same_text name p),
              ← h,
              e,
            )
            refl)
        (λ n. sym (if_neg (same_text k name) n _ _))
lookup-index k name (some v) p e =
    let L = Assoc.lookup same_text name p in
    sym (ite_is k name (or_empty L) L L (λ h. rw (← h, e) refl) (λ n. refl))

lookup-run :
    (calls : List Call) (name : Bytes) → Assoc.lookup same_text name (run calls) ≡ entry name calls
unfolding run entry seq_ssmap_set seq_ssmap_get Assoc.lookup
lookup-run [] name = refl
lookup-run (set_name n v ∷ calls) name =
    lookup-insert-ite (c_string n) name (c_string v) (run calls)
    ∙ ap (λ o. ite (same_text (c_string n) name) (some (c_string v)) o) (lookup-run calls name)
lookup-run (get_name n ∷ calls) name =
    lookup-index (c_string n) name (Assoc.lookup same_text (c_string n) (run calls)) (run calls)
      refl
    ∙ ap (λ o. ite (same_text (c_string n) name) (or_empty o) o) (lookup-run calls name)

index-text : (name : Bytes) (o : Option Bytes) (p : StringMap) → (index name o p).0 ≡ text_of o
index-text name none p = refl
index-text name (some v) p = refl

length-index :
    (name : Bytes) (o : Option Bytes) (p : StringMap)
    → Assoc.lookup same_text name p ≡ o
    → length (index name o p).1 ≡ length p + Assoc.added same_text o
unfolding Assoc.added
length-index name none p e = rw (Assoc.length-insert same_text name [] p, e) refl
length-index name (some v) p e = omega arith

-- After any sequence of sets and reads, a read gives the text that was last set for the name, up to
-- its first zero byte, with its length, or the empty text for a name that was never set.
seq_ssmap_get-run :
    (calls : List Call) (name : Bytes)
    → ((seq_ssmap_get (run calls) name).0 ≡ text_of (entry (c_string name) calls))
      × ((seq_ssmap_get (run calls) name).1 ≡ length (text_of (entry (c_string name) calls)))
unfolding seq_ssmap_get
seq_ssmap_get-run calls name =
    let e =
      index-text (c_string name) (Assoc.lookup same_text (c_string name) (run calls)) (run calls)
      ∙ ap text_of (lookup-run calls (c_string name)) in
    (e, ap length e)

-- The size counts the names that were read along with those that were set: a read of a missing
-- name adds it.
pub seq_ssmap_size-run : (calls : List Call) → seq_ssmap_size (run calls) ≡ names calls
unfolding seq_ssmap_size run names seq_ssmap_set seq_ssmap_get
seq_ssmap_size-run [] = refl
seq_ssmap_size-run (set_name n v ∷ calls) =
    rw
      (
        Assoc.length-insert same_text (c_string n) (c_string v) (run calls),
        lookup-run calls (c_string n),
        ← seq_ssmap_size-run calls,
      )
      refl
seq_ssmap_size-run (get_name n ∷ calls) =
    rw
      (
        length-index (c_string n) (Assoc.lookup same_text (c_string n) (run calls)) (run calls)
            refl,
        lookup-run calls (c_string n),
        ← seq_ssmap_size-run calls,
      )
      refl
