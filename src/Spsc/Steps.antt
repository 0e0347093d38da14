-- ===== src/Spsc/Steps.antt =====
-- The two threads of a ring, step by step.
use mmt_security.Prelude.{ℕ, ◌≡◌, List, [], ◌∷◌, ◌++◌, true, false, ok}
use mmt_security.Spsc.{
  Spsc, ring_init, push_check, push_write, push_publish, pop_check, pop_read, pop_release,
}

-- Where the thread that pushes stands in `ring_push`, and the one that pops in `ring_pop`.
pub data Producer {ℓ} (A : Type ℓ) : Type ℓ where
  outside : Producer A
  has_room written : A → Producer A

pub data Consumer {ℓ} (A : Type ℓ) : Type ℓ where
  outside some_left : Consumer A
  taken : A → Consumer A

-- The ring and both threads; `pushed` and `popped` are what the calls that returned have pushed and
-- popped, in order.
pub record System {ℓ} (A : Type ℓ) : Type ℓ where
  pub ring : Spsc A
  pub producer : Producer A
  pub consumer : Consumer A
  pub pushed : List A
  pub popped : List A

module _ {ℓ} {A : Type ℓ} where
  -- One step of either thread.
  pub data Step (s : System A) : System A → Type ℓ where
    check_room :
        (val : A) (q : Spsc A)
        → s.producer ≡ Producer.outside
        → push_check s.ring ≡ (true, q)
        → Step s (record s { ring = q; producer = has_room val })
    find_full :
        (q : Spsc A)
        → s.producer ≡ Producer.outside
        → push_check s.ring ≡ (false, q)
        → Step s (record s { ring = q })
    write :
        (val : A) (q : Spsc A)
        → s.producer ≡ has_room val
        → push_write s.ring val ≡ ok q
        → Step s (record s { ring = q; producer = written val })
    publish :
        (val : A)
        → s.producer ≡ written val
        → Step s (record s {
          ring = push_publish s.ring;
          producer = Producer.outside;
          pushed = s.pushed ++ (val ∷ []);
        })
    check_left :
        (q : Spsc A)
        → s.consumer ≡ Consumer.outside
        → pop_check s.ring ≡ (true, q)
        → Step s (record s { ring = q; consumer = some_left })
    find_empty :
        (q : Spsc A)
        → s.consumer ≡ Consumer.outside
        → pop_check s.ring ≡ (false, q)
        → Step s (record s { ring = q })
    read :
        (val : A)
        → s.consumer ≡ some_left
        → pop_read s.ring ≡ ok val
        → Step s (record s { consumer = taken val })
    release :
        (val : A)
        → s.consumer ≡ taken val
        → Step s (record s {
          ring = pop_release s.ring;
          consumer = Consumer.outside;
          popped = s.popped ++ (val ∷ []);
        })

  pub data Reachable (start : System A) : System A → Type ℓ where
    here : Reachable start start
    after : (s s' : System A) → Reachable start s → Step s s' → Reachable start s'

  -- A ring that was created, with both threads outside.
  abbrev pub created : ℕ → List A → System A
  created size memory = record {
    ring = ring_init size memory;
    producer = Producer.outside;
    consumer = Consumer.outside;
    pushed = [];
    popped = [];
  }
