-- ===== src/Tests/Spsc.antt =====
-- Runs of the ring between two threads.
use mmt_security.Prelude.{ℕ, ◌≡◌, refl, arith, some, List, [], ◌∷◌, true, false, ok, fault, wild}
use mmt_security.Spsc.{
  Spsc, ring_init, ring_push, ring_pop, ring_push_burst, ring_pop_burst, push_check, push_write,
  push_publish, pop_check, pop_read, pop_release,
}
use mmt_security.Spsc.Steps.{
  System, Producer, Reachable, created, has_room, written, here, after, check_room, write, publish,
}
use mmt_security.Spsc.Traces.{IsFifo, Reachable-IsFifo}

program : Unit {0}
unfolding ring_init ring_push ring_pop ring_push_burst ring_pop_burst push_check push_write
    push_publish pop_check pop_read pop_release
program = tt

abbrev memory : List ℕ
memory = 0 ∷ 0 ∷ 0 ∷ []

abbrev one_inside : Spsc ℕ
one_inside = record {
  head = 1;
  tail = 0;
  cached_head = 0;
  cached_tail = 0;
  size = 3;
  buffer = 7 ∷ 0 ∷ 0 ∷ [];
}

-- A ring of three slots takes one element.
pushed_one : ring_push (ring_init 3 memory) 7 ≡ ok (true, one_inside)
unfolding program
pushed_one = refl

refused_second : ring_push one_inside 8 ≡ ok (false, one_inside)
unfolding program
refused_second = refl

popped_one : ring_pop one_inside ≡ ok (some 7, record one_inside { tail = 1; cached_head = 1 })
unfolding program
popped_one = refl

-- The head stands in the last slot of four, two slots are free: the second element of the burst is
-- written beyond the buffer.
abbrev near_the_end : Spsc ℕ
near_the_end = record {
  head = 3;
  tail = 2;
  cached_head = 3;
  cached_tail = 2;
  size = 4;
  buffer = 0 ∷ 0 ∷ 7 ∷ 0 ∷ [];
}

burst_beyond : ring_push_burst near_the_end (8 ∷ 9 ∷ []) ≡ fault wild
unfolding program
burst_beyond = refl

abbrev start : System ℕ
start = created 3 memory

abbrev ready : System ℕ
ready = record start { producer = has_room 7 }

abbrev stored : System ℕ
stored = record start {
  ring = record {
    head = 0;
    tail = 0;
    cached_head = 0;
    cached_tail = 0;
    size = 3;
    buffer = 7 ∷ 0 ∷ 0 ∷ [];
  };
  producer = written 7;
}

abbrev shown : System ℕ
shown = record stored { ring = one_inside; producer = Producer.outside; pushed = 7 ∷ [] }

shown-Reachable : Reachable start shown
unfolding program
shown-Reachable =
    after stored shown
      (after ready stored (after start ready here (check_room 7 start.ring refl refl))
        (write 7 stored.ring refl refl))
      (publish 7 refl)

Reachable-IsFifo_example : IsFifo shown
Reachable-IsFifo_example =
    Reachable-IsFifo 3 memory shown (omega arith) (omega arith) refl shown-Reachable
