-- ===== src/DataQueue/Owned.antt =====
-- moxt/libthread.cpp: who has the blocks of a queue of data, and what a push makes of them.
use mathlib.Core.Path.{subst}
use native.Mathlib.Decide.{dec_lt}
use moxt_cpp.Count.{one, live, one_same, live-put_new, live-put-none}
use moxt_cpp.Queue.{Queue, head, tail}
use moxt_cpp.DataQueue.{Iovec, ring_capacity, DataQueue, new_buffer}
use moxt_cpp.DataQueue.Spec.{Blocks, has_room}
use moxt_cpp.DataQueue.Stored.{
  Stored, uses, uses-snoc, uses-remove_at, Stored-length, Stored-snoc, Stored-put, Placed,
  Stored-remove_at,
}
use moxt_cpp.WebSocket.Events.{remove_at}
use moxt_cpp.Prelude.{
  ◌≡◌, refl, sym, ◌∙◌, ap, ℕ, ◌+◌, ◌≤◌, ◌<◌, true, false, none, some, List, [], ◌∷◌, ◌++◌, Bytes,
  length, inl, inr, ◌⊎◌, arith, ltb, lt→ltb, le→ltb_false,
}
use moxt_cpp.Prelude.Put.{put, put_cases, put_there, put_here}

module _ (q : Queue Iovec) where
  -- The entries of the ring and the program's own point to the blocks, each to another one, and
  -- nothing else is live.
  pub record Matches (queue : DataQueue q) (held : List Iovec) (t : Blocks) : Type 0 where
    pub queued : Stored queue.buffers (q.items queue.ring) t.queued
    pub taken : Stored queue.buffers held t.taken
    pub once : (c : ℕ) → uses c (q.items queue.ring) + uses c held ≡ live (queue.buffers c)
    pub fresh : (c : ℕ) → queue.next_buffer ≤ c → queue.buffers c ≡ none
    pub bounded_by : q.capacity queue.ring ≡ ring_capacity

  -- Whether the ring takes an entry.
  pub push-cases :
      (ring : q.Ring) (iov : Iovec)
      → q.capacity ring ≡ ring_capacity
      → ((r : q.Ring) × (q.push ring iov ≡ some r)
          × (q.items r ≡ q.items ring ++ iov ∷ [])
          × (q.capacity r ≡ ring_capacity)
          × (ltb (length (q.items ring)) ring_capacity ≡ true))
        ⊎ ((q.push ring iov ≡ none) × (ltb (length (q.items ring)) ring_capacity ≡ false))
  push-cases ring iov e = elim (dec_lt (length (q.items ring)) ring_capacity) [
    | yes l ↦
        let (r, p, i, c) =
          q.push_room ring iov (subst (λ n. length (q.items ring) < n) (sym e) l) in
        inl (r, p, i, c ∙ e, lt→ltb (length (q.items ring)) ring_capacity l)
    | no n ↦
        let w = q.within ring in
        inr (
          q.push_full ring iov (omega arith),
          le→ltb_false (length (q.items ring)) ring_capacity (omega arith),
        )
  ]

  module _ (queue : DataQueue q) (held : List Iovec) (t : Blocks) (v : Matches queue held t) where
    pub room-length : has_room t ≡ ltb (length (q.items queue.ring)) ring_capacity
    room-length =
        ap (λ n. ltb n ring_capacity)
          (sym (Stored-length queue.buffers (q.items queue.ring) t.queued v.queued))

    -- A new buffer that the ring took.
    pub queued_new :
        (r : q.Ring) (block : Bytes) (len : ℕ)
        → length block ≡ len
        → q.items r
          ≡ q.items queue.ring ++ record { iov_base = queue.next_buffer; iov_len = len } ∷ []
        → q.capacity r ≡ ring_capacity
        → Matches
            (record (new_buffer q block queue).1 { ring = r })
            held
            (record { queued = t.queued ++ block ∷ []; taken = t.taken })
    queued_new r block len l i c =
        let n = queue.next_buffer in
        let u = v.once n in
        let f : queue.buffers n ≡ none = v.fresh n (omega arith) in
        let z : uses n (q.items queue.ring) + uses n held ≡ 0 = rw u (rw f refl) in
        record {
          queued = rw i (
              Stored-snoc (put n (some block) queue.buffers) (q.items queue.ring) t.queued
                (record { iov_base = n; iov_len = len }) block
                (Stored-put queue.buffers n (some block) (q.items queue.ring) t.queued (omega arith)
                  v.queued)
                (put_here n n (some block) queue.buffers refl) l);
          taken = Stored-put queue.buffers n (some block) held t.taken (omega arith) v.taken;
          once = λ k. rw i (
              omega (
                arith,
                uses-snoc k (record { iov_base = n; iov_len = len }) (q.items queue.ring),
                v.once k,
                live-put_new n k queue.buffers block f,
              ));
          fresh = λ k g.
              put_there n k (some block) queue.buffers (λ e. absurd (omega arith))
              ∙ v.fresh k (omega arith);
          bounded_by = c;
        }

    -- A new buffer that is deleted.
    pub dropped_new :
        (block : Bytes)
        → Matches
            (record (new_buffer q block queue).1 {
              buffers =
                  put queue.next_buffer none (put queue.next_buffer (some block) queue.buffers);
            })
            held
            t
    dropped_new block =
        let n = queue.next_buffer in
        let u = v.once n in
        let f : queue.buffers n ≡ none = v.fresh n (omega arith) in
        let z : uses n (q.items queue.ring) + uses n held ≡ 0 = rw u (rw f refl) in
        let g = put n (some block) queue.buffers in
        let twice : (is : List Iovec) (bs : List Bytes)
            → uses n is ≡ 0
            → Stored queue.buffers is bs
            → Stored (put n none g) is bs =
          λ is bs e h.
            Stored-put g n none is bs e (Stored-put queue.buffers n (some block) is bs e h) in
        let here : g n ≡ some block = put_here n n (some block) queue.buffers refl in
        record {
          queued = twice (q.items queue.ring) t.queued (omega arith) v.queued;
          taken = twice held t.taken (omega arith) v.taken;
          once = λ k. omega (
            arith,
            v.once k,
            live-put_new n k queue.buffers block f,
            live-put-none n k g block here,
          );
          fresh = λ k h.
              put_there n k none g (λ e. absurd (omega arith))
              ∙ put_there n k (some block) queue.buffers (λ e. absurd (omega arith))
              ∙ v.fresh k (omega arith);
          bounded_by = v.bounded_by;
        }

  -- The entry in front and its block.
  pub record Front (queue : DataQueue q) (t : Blocks) : Type 0 where
    pub entry : Iovec
    pub entries : List Iovec
    pub block : Bytes
    pub blocks : List Bytes
    pub front_is : q.front queue.ring ≡ some entry
    pub items_are : q.items queue.ring ≡ entry ∷ entries
    pub queued_are : t.queued ≡ block ∷ blocks
    pub points : queue.buffers entry.iov_base ≡ some block
    pub measures : length block ≡ entry.iov_len
    pub behind : Stored queue.buffers entries blocks

  fronted :
      (queue : DataQueue q) (t : Blocks) (is : List Iovec) (bs : List Bytes)
      → q.items queue.ring ≡ is
      → t.queued ≡ bs
      → Stored queue.buffers is bs
      → ((q.front queue.ring ≡ none) × (q.items queue.ring ≡ []) × (t.queued ≡ [])) ⊎ Front queue t
  fronted queue t [] [] i b h = inl (q.front-items queue.ring ∙ ap head i, i, b)
  fronted queue t [] (y ∷ bs) i b h = absurd h
  fronted queue t (x ∷ is) [] i b h = absurd h
  fronted queue t (x ∷ is) (y ∷ bs) i b (e, l, h) = inr (record {
    entry = x;
    entries = is;
    block = y;
    blocks = bs;
    front_is = q.front-items queue.ring ∙ ap head i;
    items_are = i;
    queued_are = b;
    points = e;
    measures = l;
    behind = h;
  })

  module _ (queue : DataQueue q) (held : List Iovec) (t : Blocks) (v : Matches queue held t) where
    pub front-cases :
        ((q.front queue.ring ≡ none) × (q.items queue.ring ≡ []) × (t.queued ≡ [])) ⊎ Front queue t
    front-cases = fronted queue t (q.items queue.ring) t.queued refl refl v.queued

    -- The entry in front becomes the program's own.
    pub taken_out :
        (w : Front queue t)
        → Matches
            (record queue { ring = q.pop queue.ring })
            (w.entry ∷ held)
            (record { queued = w.blocks; taken = w.block ∷ t.taken })
    taken_out w =
        let p : q.items (q.pop queue.ring) ≡ w.entries =
          q.items-pop queue.ring ∙ ap tail w.items_are in
        record {
          queued = rw p w.behind;
          taken = (w.points, w.measures, v.taken);
          once = λ k. rw p (omega (arith, v.once k, ap (uses k) w.items_are));
          fresh = v.fresh;
          bounded_by = q.capacity-pop queue.ring ∙ v.bounded_by;
        }

    -- An entry of the program's own that the ring took.
    pub given_in :
        (n : ℕ) (p : Placed queue.buffers held t.taken n) (r : q.Ring)
        → q.items r ≡ q.items queue.ring ++ p.entry ∷ []
        → q.capacity r ≡ ring_capacity
        → Matches
            (record queue { ring = r })
            (remove_at n held)
            (record { queued = t.queued ++ p.block ∷ []; taken = remove_at n t.taken })
    given_in n p r i c = record {
      queued = rw i (
          Stored-snoc queue.buffers (q.items queue.ring) t.queued p.entry p.block v.queued p.points
            p.measures);
      taken = Stored-remove_at queue.buffers n held t.taken v.taken;
      once = λ k. rw i (
          omega (
            arith,
            uses-snoc k p.entry (q.items queue.ring),
            v.once k,
            uses-remove_at k n p.entry held p.at_entry,
          ));
      fresh = v.fresh;
      bounded_by = c;
    }

  module _ (queue : DataQueue q) (held : List Iovec) (t : Blocks) (v : Matches queue held t) where
    -- The entry in front with its block deleted.
    pub copied_out :
        (w : Front queue t)
        → Matches
            (record queue {
              ring = q.pop queue.ring;
              buffers = put w.entry.iov_base none queue.buffers;
            })
            held
            (record { queued = w.blocks; taken = t.taken })
    copied_out w =
        let n = w.entry.iov_base in
        let m = taken_out queue held t v w in
        let u = m.once n in
        let l : uses n (q.items (q.pop queue.ring)) + (one n n + uses n held) ≡ 1 =
          u ∙ ap live w.points in
        let o = one_same n n refl in
        record {
          queued =
              Stored-put queue.buffers n none (q.items (q.pop queue.ring)) w.blocks (omega arith)
                m.queued;
          taken = Stored-put queue.buffers n none held t.taken (omega arith) v.taken;
          once = λ k. omega (arith, m.once k, live-put-none n k queue.buffers w.block w.points);
          fresh = λ k h. elim (put_cases n k none queue.buffers) [
            | inl (e, p) ↦ p
            | inr (e, p) ↦ p ∙ v.fresh k h
          ];
          bounded_by = m.bounded_by;
        }
