-- ===== src/Examples/Queue.antt =====
-- A buffer of the network library at work: the readable bytes, and the room in front of them.
use woody.Shared.{
  ltb, lt→ltb, le→ltb, ℕ, ◌-◌, refl, Option, none, some, List, [], ◌++◌, length, if◌then◌else◌,
}
use woody.Net.Buffer.{Buffer}

abbrev pub Queue : Type 0
Queue = List ℕ × ℕ

abbrev put_front : List ℕ → Queue → Option Queue
put_front s (t, room) = if ltb room (length s) then none else some ((s ++ t, room - length s))

abbrev pub queue : Buffer
queue = record {
  Buf = Queue;
  readable = λ b. b.0;
  retrieve_all = λ b. ([], 8);
  prepend = put_front;
  prependable = λ b. b.1;
  cheap_prepend = 8;
  retrieve_all_empties = λ b. refl;
  retrieve_all_room = λ b. refl;
  prepend_fits = λ s b h. ((s ++ b.0, b.1 - length s), rw (le→ltb b.1 (length s) h) refl, refl);
  prepend_overruns = λ s b h. rw (lt→ltb b.1 (length s) h) refl;
}
