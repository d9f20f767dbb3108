-- ===== src/DataQueue/Spec.antt =====
-- moxt/libthread.cpp: what a queue of data promises. There are no addresses: blocks of bytes go into
-- a bounded queue and come out in the same order, each as it went in.
use moxt_cpp.DataQueue.{ring_capacity, copied, within_room}
use moxt_cpp.DataQueue.Use.{
  Event, pushing_data, popping_data, pushing, popping, Answer, did_push, did_pop, took, no_call,
}
use moxt_cpp.WebSocket.Events.{remove_at}
use moxt_cpp.Prelude.{
  ℕ, Bool, true, false, Option, none, some, List, [], ◌∷◌, ◌++◌, Bytes, length, get_elem?, ltb,
}
use moxt_cpp.Prelude.Outcome.{Outcome, ok, ◌>>=◌}

-- The blocks in the queue, the first to come out in front, and those taken out.
pub record Blocks : Type 0 where
  pub queued : List Bytes
  pub taken : List Bytes

abbrev pub no_blocks : Blocks
no_blocks = record { queued = []; taken = [] }

abbrev pub offer : Bool → Bytes → Blocks → Answer × Blocks
offer true block t = (did_push true, record { queued = t.queued ++ block ∷ []; taken = t.taken })
offer false block t = (did_push false, t)

abbrev pub offer_taken : Bool → ℕ → Bytes → Blocks → Answer × Blocks
offer_taken true n block t =
    (did_push true, record { queued = t.queued ++ block ∷ []; taken = remove_at n t.taken })
offer_taken false n block t = (did_push false, t)

-- whether there is room
abbrev pub has_room : Blocks → Bool
has_room t = ltb (length t.queued) ring_capacity

abbrev pub offer_place : Option Bytes → ℕ → Blocks → Answer × Blocks
offer_place none n t = (no_call, t)
offer_place (some block) n t = offer_taken (has_room t) n block t

abbrev pub copy_out : ℕ → List Bytes → List Bytes → Outcome (Answer × Blocks)
copy_out room [] taken = ok (
  did_pop (record { result = false; len = 0; output = [] }),
  record { queued = []; taken = taken },
)
copy_out room (block ∷ rest) taken = do
  out ← within_room room (length block) block
  ok (
    did_pop (record { result = true; len = length block; output = out }),
    record { queued = rest; taken = taken },
  )

abbrev pub take_out : List Bytes → List Bytes → Answer × Blocks
take_out [] taken = (took false, record { queued = []; taken = taken })
take_out (block ∷ rest) taken = (took true, record { queued = rest; taken = block ∷ taken })

unfoldable pub promised : Event → Blocks → Outcome (Answer × Blocks)
promised (pushing_data from len) t = do block ← copied len from; ok (offer (has_room t) block t)
promised (popping_data room) t = copy_out room t.queued t.taken
promised (pushing n) t = ok (offer_place (get_elem? t.taken n) n t)
promised popping t = ok (take_out t.queued t.taken)

unfoldable pub promises : List Event → Blocks → Outcome (List (Answer) × Blocks)
promises [] t = ok ([], t)
promises (e ∷ es) t = do r ← promised e t; rest ← promises es r.1; ok (r.0 ∷ rest.0, rest.1)
