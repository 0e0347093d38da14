-- ===== src/Engine/SafeProcess.antt =====
-- The invariant of an engine's heap where nodes and instances are added.
use mmt_security.Prelude.{
  IfOk-trivial, ℕ, zero, suc, ◌+◌, ◌-◌, ◌≡◌, ◌≢◌, refl, sym, subst, inl, inr, some, List, [], ◌∷◌,
  Bool, ◌==◌, arith, length, set, get_elem?, get_elem?-set-cases, Run, ◌>>=◌, at, IfOk, IfOk-bind,
  All, All-map, All-set, Bool-cases, ltb, ◌&&◌, not,
}
use mmt_security.Fsm.{Fsm, Transition, timeout_type}
use mmt_security.Rule.{Rule}
use mmt_security.Engine.Store.{
  TranNode, Engine, load, put, set_list, remove_link_node, mark_node, expect_one, expect_from,
  set_expecting_events_id,
}
use mmt_security.Engine.Reset.{find_available, find_an_available_id}
use mmt_security.Engine.Process.{class_of, add_instance}
use mmt_security.Engine.Safe.{IsLive, IsMember, IsSafe, Heap}

pub at-All {ℓ} : {A : Type ℓ} (P : A → Type 0) (xs : List A) (i : ℕ) → All P xs → IfOk (at xs i) P
at-All P [] i h = tt
at-All P (x ∷ xs) zero h = h.0
at-All P (x ∷ xs) (suc i) h = at-All P xs i h.1

pub at-get {ℓ} : {A : Type ℓ} (xs : List A) (i : ℕ) → IfOk (at xs i) (λ x. get_elem? xs i ≡ some x)
at-get [] i = tt
at-get (x ∷ xs) zero = refl
at-get (x ∷ xs) (suc i) = at-get xs i

pub IfOk-set_list {ℓ κ} :
    {A : Type ℓ} {B : Type κ} (ls : List (List A)) (i : ℕ) (v : List A) (f : List (List A) → Run B)
    (Q : B → Type 0)
    → IfOk (f (set ls i v)) Q
    → IfOk (set_list ls i v >>= f) Q
IfOk-set_list ls i v f Q h = elim (Bool-cases (ltb i (length ls))) [
  | inl e ↦ rw e h
  | inr e ↦ rw e tt
]

-- The engine is safe, and the address holds a machine with the id.
abbrev pub Holding : ℕ → Engine → Type 0
Holding a e = IsSafe e × ((f : Fsm) × (e.fsms a ≡ some f))

module _ (e : Engine) (safe : IsSafe e) (lists : List (List TranNode))
    (live : All (All (IsLive e.fsms)) lists) where
  pub relist-IsSafe :
      (n : ℕ) → IsSafe (record e { fsm_by_expecting_event_id = lists; next_node = n })
  relist-IsSafe n = record { nodes = live; members = safe.members; distinct = safe.distinct }

expect_one-Holding :
    (e : Engine) (a : ℕ) (add : Bool) (counter i : ℕ) (t : Transition)
    → Holding a e
    → IfOk (expect_one e a add counter i t) (Holding a)
unfolding expect_one
expect_one-Holding e a add counter i t h =
    let lists = e.fsm_by_expecting_event_id in
    elim (Bool-cases (t.event_type == timeout_type && not add)) [
      | inl q ↦ rw q h
      | inr q ↦ rw q (
          IfOk-bind (at lists t.event_type) _ (All (IsLive e.fsms)) (Holding a)
            (at-All _ lists t.event_type h.0.nodes)
            (λ nodes _ p.
              IfOk-set_list lists t.event_type _ _ (Holding a)
                (relist-IsSafe e h.0 _ (All-set _ lists t.event_type _ h.0.nodes (h.1, p)) _, h.1)))
    ]

expect_from-Holding :
    (e : Engine) (a : ℕ) (add : Bool) (counter i : ℕ) (ts : List Transition)
    → Holding a e
    → IfOk (expect_from e a add counter i ts) (Holding a)
unfolding expect_from
expect_from-Holding e a add counter i [] h = h
expect_from-Holding e a add counter i (t ∷ ts) h =
    IfOk-bind (expect_one e a add counter i t) _ (Holding a) (Holding a)
      (expect_one-Holding e a add counter i t h)
      (λ e' _ p. expect_from-Holding e' a add counter (i + 1) ts p)

pub set_expecting_events_id-Holding :
    (rule : Rule) (e : Engine) (a : ℕ) (add : Bool) (counter : ℕ)
    → Holding a e
    → IfOk (set_expecting_events_id rule e a add counter) (Holding a)
unfolding set_expecting_events_id
set_expecting_events_id-Holding rule e a add counter h =
    IfOk-bind (load e a) _ (λ _. Unit {0}) (Holding a) (ground arith)
      (λ f _ _.
        IfOk-bind (at rule.states f.current_state) _ (λ _. Unit {0}) (Holding a) (ground arith)
          (λ s _ _. expect_from-Holding e a add counter 0 s.transitions h))

pub remove_link_node-All :
    (P : TranNode → Type 0) (l : List TranNode) (p : ℕ) → All P l → All P (remove_link_node l p)
unfolding remove_link_node
remove_link_node-All P [] p h = tt
remove_link_node-All P (n ∷ l) p h = elim (Bool-cases (n.node == p)) [
  | inl e ↦ rw e h.1
  | inr e ↦ rw e (h.0, remove_link_node-All P l p h.1)
]

pub mark_node-IsLive :
    (h : Heap) (l : List TranNode) (p c : ℕ) → All (IsLive h) l → All (IsLive h) (mark_node l p c)
unfolding mark_node
mark_node-IsLive h [] p c q = tt
mark_node-IsLive h (n ∷ l) p c q = elim (Bool-cases (n.node == p)) [
  | inl e ↦ rw e (q.0, q.1)
  | inr e ↦ rw e (q.0, mark_node-IsLive h l p c q.1)
]

-- A new machine in the class of its id.
module _ (e : Engine) (safe : IsSafe e) (g : Fsm) (l : List ℕ)
    (here : get_elem? e.fsm_by_instance_id g.id ≡ some l) where
  grown : Heap
  grown = put e.fsms e.next_fsm (some g)

  grown-IsMember :
      (id a : ℕ) → IsMember e.fsms e.next_fsm id a → IsMember grown (e.next_fsm + 1) id a
  unfolding grown
  grown-IsMember id a (below, (f, ea, same)) = (omega arith, (f, ground arith, same))

  below-apart :
      (id : ℕ) (k : List ℕ) → All (IsMember e.fsms e.next_fsm id) k → All (λ b. b ≢ e.next_fsm) k
  below-apart id k p = All-map _ _ k (λ b q. omega (arith, q.0)) p

  with_instance : Engine
  with_instance = record e {
    fsms = grown;
    fsm_by_instance_id = set e.fsm_by_instance_id g.id (e.next_fsm ∷ l);
    next_fsm = e.next_fsm + 1;
  }

  new_class : All (IsMember grown (e.next_fsm + 1) g.id) (e.next_fsm ∷ l)
  unfolding grown
  new_class = (
    (omega arith, (g, ground arith, refl)),
    All-map _ _ l (λ b q. grown-IsMember g.id b q) (safe.members g.id here),
  )

  with_instance-IsSafe : IsSafe with_instance
  unfolding with_instance grown
  with_instance-IsSafe = record {
    nodes =
        All-map _ _ e.fsm_by_expecting_event_id (λ ns p. All-map _ _ ns (λ n q. put-IsLive n q) p)
          safe.nodes;
    members = λ id {l = k} h.
        elim (get_elem?-set-cases e.fsm_by_instance_id g.id id (e.next_fsm ∷ l) h) [
          | inl (same, new) ↦ rw new (
              subst (λ i. All (IsMember grown (e.next_fsm + 1) i) (e.next_fsm ∷ l)) (sym same)
                new_class)
          | inr (ne, old) ↦ All-map _ _ k (λ b q. grown-IsMember id b q) (safe.members id old)
        ];
    distinct = λ id {l = k} h.
        elim (get_elem?-set-cases e.fsm_by_instance_id g.id id (e.next_fsm ∷ l) h) [
          | inl (same, new) ↦
              rw new (below-apart g.id l (safe.members g.id here), safe.distinct g.id here)
          | inr (ne, old) ↦ safe.distinct id old
        ];
  }
    where
      put-IsLive : (n : TranNode) → IsLive e.fsms n → IsLive (put e.fsms e.next_fsm (some g)) n
      put-IsLive n (f, ef) = elim (Bool-cases (n.fsm == e.next_fsm)) [
        | inl q ↦ (g, rw q)
        | inr q ↦ (f, rw q ef)
      ]

class_of-IsSafe :
    (e : Engine) (a : ℕ) (g : Fsm) → IsSafe e → IfOk (class_of e a g) (λ r. IsSafe r.1)
unfolding class_of find_an_available_id
class_of-IsSafe e a g safe = elim (Bool-cases (a == e.fsm_bootstrap)) [
  | inr q ↦ rw q safe
  | inl q ↦ rw q (
      IfOk-bind
        (find_available e.fsm_by_instance_id e.avail_fsm_id (e.max_instances_size - e.avail_fsm_id))
        _ (λ _. Unit {0}) (λ r. IsSafe r.1) (IfOk-trivial _)
        (λ i _ _. record { nodes = safe.nodes; members = safe.members; distinct = safe.distinct }))
]

pub add_instance-Holding :
    (e : Engine) (a : ℕ) (g : Fsm) → IsSafe e → IfOk (add_instance e a g) (λ r. Holding r.0 r.1)
unfolding add_instance with_instance grown
add_instance-Holding e a g safe =
    IfOk-bind (class_of e a g) _ (λ r. IsSafe r.1) (λ r. Holding r.0 r.1)
      (class_of-IsSafe e a g safe)
      (λ r _ safe'.
        let e' = r.1 in
        IfOk-bind (at e'.fsm_by_instance_id r.0) _
          (λ l. get_elem? e'.fsm_by_instance_id r.0 ≡ some l) (λ r. Holding r.0 r.1)
          (at-get e'.fsm_by_instance_id r.0)
          (λ l _ here.
            IfOk-set_list e'.fsm_by_instance_id r.0 _ _ (λ r. Holding r.0 r.1)
              (
                with_instance-IsSafe e' safe' (record g { id = r.0 }) l here,
                (record g { id = r.0 }, ground arith),
              )))
