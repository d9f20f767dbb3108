-- ===== src/DataQueue.antt =====
-- moxt/libthread.cpp: the `seq_lockfree_queue_*` calls, which pass blocks of bytes between two
-- threads through a ring of `iovec`s. The ring is photon's LockfreeSPSCRingQueue (Queue.antt). The
-- blocks stand on a heap; an address without one is not live.
pub mod Use
pub mod Spec
pub mod Stored
pub mod Owned
pub mod Refine
mod Tests
use moxt_cpp.Queue.{Queue}
use moxt_cpp.Prelude.{
  ℕ, suc, Bool, true, false, Option, none, some, [], Bytes, length, take, leb, if◌then◌else◌,
}
use moxt_cpp.Prelude.Outcome.{Outcome, ok, fault, bad_index, dangling, ◌>>=◌}
use moxt_cpp.Prelude.Put.{put}

abbrev pub ring_capacity : ℕ
ring_capacity = 16384

pub record Iovec : Type 0 where
  pub iov_base : ℕ
  pub iov_len : ℕ

-- `memcpy` of `len` bytes, which must be there.
abbrev pub copied : ℕ → Bytes → Outcome Bytes
copied len bytes = if leb len (length bytes) then ok (take len bytes) else fault bad_index

abbrev pub copied_from : Option Bytes → ℕ → Outcome Bytes
copied_from none len = fault dangling
copied_from (some bytes) len = copied len bytes

-- What a call writes: its result, `*len`, and the bytes of `output`.
pub record Popped : Type 0 where
  pub result : Bool
  pub len : ℕ
  pub output : Bytes

-- `output` has room for so many bytes.
abbrev pub within_room : ℕ → ℕ → Bytes → Outcome Bytes
within_room room len bytes = if leb len room then ok bytes else fault bad_index

module _ (q : Queue Iovec) where
  pub record DataQueue : Type 0 where
    pub ring : q.Ring
    pub buffers : ℕ → Option Bytes
    pub next_buffer : ℕ

  unfoldable pub seq_lockfree_queue_new : DataQueue
  seq_lockfree_queue_new = record {
    ring = q.make ring_capacity;
    buffers = λ base. none;
    next_buffer = 0;
  }

  -- The ring with the element, or as it was.
  abbrev pub pushed : Option q.Ring → DataQueue → Bool × DataQueue
  pushed none s = (false, s)
  pushed (some ring) s = (true, record s { ring = ring })

  unfoldable pub seq_lockfree_queue_push : Iovec → DataQueue → Bool × DataQueue
  seq_lockfree_queue_push iov s = pushed (q.push s.ring iov) s

  -- The element in front, out of the ring.
  abbrev pub popped : Option Iovec → DataQueue → Option Iovec × DataQueue
  popped none s = (none, s)
  popped (some iov) s = (some iov, record s { ring = q.pop s.ring })

  -- `none` for false, with `data` as it was.
  unfoldable pub seq_lockfree_queue_pop : DataQueue → Option Iovec × DataQueue
  seq_lockfree_queue_pop s = popped (q.front s.ring) s

  -- `new char[len]` and the copy into it
  abbrev pub new_buffer : Bytes → DataQueue → ℕ × DataQueue
  new_buffer bytes s = (
    s.next_buffer,
    record s {
      buffers = put s.next_buffer (some bytes) s.buffers;
      next_buffer = suc s.next_buffer;
    },
  )

  abbrev pub deleted : Option Bytes → ℕ → DataQueue → Outcome DataQueue
  deleted none base s = fault dangling
  deleted (some bytes) base s = ok (record s { buffers = put base none s.buffers })

  -- `delete[]`
  abbrev pub delete_buffer : ℕ → DataQueue → Outcome DataQueue
  delete_buffer base s = deleted (s.buffers base) base s

  abbrev pub unless_pushed : ℕ → Bool × DataQueue → Outcome (Bool × DataQueue)
  unless_pushed buffer (true, s) = ok (true, s)
  unless_pushed buffer (false, s) = do t ← delete_buffer buffer s; ok (false, t)

  unfoldable pub seq_lockfree_queue_push_data : Bytes → ℕ → DataQueue → Outcome (Bool × DataQueue)
  seq_lockfree_queue_push_data from len s = do
    bytes ← copied len from
    let b = new_buffer bytes s
    unless_pushed b.0 (seq_lockfree_queue_push (record { iov_base = b.0; iov_len = len }) b.1)

  abbrev pub read_out : ℕ → Option Iovec × DataQueue → Outcome (Popped × DataQueue)
  read_out room (none, s) = ok (record { result = false; len = 0; output = [] }, s)
  read_out room (some iov, s) = do
    read ← copied_from (s.buffers iov.iov_base) iov.iov_len
    bytes ← within_room room iov.iov_len read
    t ← delete_buffer iov.iov_base s
    ok (record { result = true; len = iov.iov_len; output = bytes }, t)

  unfoldable pub seq_lockfree_queue_pop_data : ℕ → DataQueue → Outcome (Popped × DataQueue)
  seq_lockfree_queue_pop_data room s = read_out room (seq_lockfree_queue_pop s)

  -- Deletes the ring; the buffers are as they were.
  unfoldable pub seq_lockfree_queue_free : DataQueue → ℕ → Option Bytes
  seq_lockfree_queue_free s = s.buffers
