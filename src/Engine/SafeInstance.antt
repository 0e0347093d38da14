-- ===== src/Engine/SafeInstance.antt =====
-- `_reset_engine_for_instance` on a safe engine.
use mmt_security.Prelude.{
  ℕ, ◌<◌, ◌≡◌, ◌≢◌, sym, ◌∙◌, inl, inr, none, some, List, [], ◌∷◌, ◌==◌, if◌then◌else◌, arith,
  length, set, get_elem?, get_elem?-set_self, get_elem?-set-cases, Ensures, All, All-map, Distinct,
  get_elem?-in, lt→ltb, Bool-cases,
}
use mmt_security.Fsm.{Fsm}
use mmt_security.Engine.Store.{TranNode, Engine, put, remove_node}
use mmt_security.Engine.Reset.{drop_instance, drop_instance_all, reset_engine_for_instance, is_nil}
use mmt_security.Engine.Safe.{IsLive, IsMember, IsSafe, Heap, members-apart}

-- A live node of another machine.
abbrev IsBeside : Heap → ℕ → TranNode → Type 0
IsBeside h a n = IsLive h n × (n.fsm ≢ a)

drop_instance-IsBeside :
    (h : Heap) (a : ℕ) (l : List TranNode)
    → All (IsLive h) l
    → All (IsBeside h a) (drop_instance a l)
unfolding drop_instance
drop_instance-IsBeside h a [] p = tt
drop_instance-IsBeside h a (n ∷ l) p = ground (arith, drop_instance-IsBeside h a l p.1)

drop_instance_all-IsBeside :
    (h : Heap) (a : ℕ) (ls : List (List TranNode))
    → All (All (IsLive h)) ls
    → All (All (IsBeside h a)) (drop_instance_all a ls)
unfolding drop_instance_all
drop_instance_all-IsBeside h a [] p = tt
drop_instance_all-IsBeside h a (l ∷ ls) p =
    (drop_instance-IsBeside h a l p.0, drop_instance_all-IsBeside h a ls p.1)

All-remove_node : (P : ℕ → Type 0) (l : List ℕ) (a : ℕ) → All P l → All P (remove_node l a)
unfolding remove_node
All-remove_node P [] a h = tt
All-remove_node P (b ∷ l) a h = elim (Bool-cases (b == a)) [
  | inl e ↦ rw e h.1
  | inr e ↦ rw e (h.0, All-remove_node P l a h.1)
]

Distinct-remove_node : (l : List ℕ) (a : ℕ) → Distinct l → Distinct (remove_node l a)
unfolding remove_node
Distinct-remove_node [] a h = tt
Distinct-remove_node (b ∷ l) a h = elim (Bool-cases (b == a)) [
  | inl e ↦ rw e h.1
  | inr e ↦ rw e (All-remove_node (λ y. y ≢ b) l a h.0, Distinct-remove_node l a h.1)
]

-- The node that is removed stood once in the list.
remove_node-apart : (l : List ℕ) (a : ℕ) → Distinct l → All (λ b. b ≢ a) (remove_node l a)
unfolding remove_node
remove_node-apart [] a h = tt
remove_node-apart (b ∷ l) a h = elim (Bool-cases (b == a)) [
  | inl e ↦ rw e (All-map _ _ l (λ c p. ground arith) h.0)
  | inr e ↦ rw e (ground arith, remove_node-apart l a h.1)
]

All-both {ℓ} :
    {A : Type ℓ} (P Q : A → Type 0) (l : List A) → All P l → All Q l → All (λ x. P x × Q x) l
All-both P Q [] h k = tt
All-both P Q (x ∷ l) h k = ((h.0, k.0), All-both P Q l h.1 k.1)

put-other : (h : Heap) (a b : ℕ) → b ≢ a → put h a none b ≡ h b
put-other h a b ne = ground arith

put-IsMember :
    (h : Heap) (bound id a b : ℕ)
    → b ≢ a
    → IsMember h bound id b
    → IsMember (put h a none) bound id b
put-IsMember h bound id a b ne (below, (g, eb, same)) = (below, (g, put-other h a b ne ∙ eb, same))

-- What ending one instance leaves: a safe engine, the machine freed, and no node that waits for it.
-- If it was the last of its class, the class's id is the one to try first.
pub record IsGone (a id : ℕ) (e : Engine) : Type 0 where
  pub safe : IsSafe e
  pub freed : e.fsms a ≡ none
  pub apart : All (All (λ n. n.fsm ≢ a)) e.fsm_by_expecting_event_id
  pub available : get_elem? e.fsm_by_instance_id id ≡ some [] → e.avail_fsm_id ≡ id

module _ (e : Engine) (a : ℕ) (f : Fsm) (l : List ℕ) (safe : IsSafe e) (ea : e.fsms a ≡ some f)
    (here : get_elem? e.fsm_by_instance_id f.id ≡ some l) (avail : ℕ) where
  shrunk : Engine
  shrunk = record e {
    fsm_by_expecting_event_id = drop_instance_all a e.fsm_by_expecting_event_id;
    fsm_by_instance_id = set e.fsm_by_instance_id f.id (remove_node l a);
    avail_fsm_id = avail;
    fsms = put e.fsms a none;
  }

  left : All (All (IsBeside e.fsms a)) (drop_instance_all a e.fsm_by_expecting_event_id)
  left = drop_instance_all-IsBeside e.fsms a e.fsm_by_expecting_event_id safe.nodes

  elsewhere :
      (id : ℕ) (k : List ℕ)
      → id ≢ f.id
      → All (IsMember e.fsms e.next_fsm id) k
      → All (IsMember (put e.fsms a none) e.next_fsm id) k
  elsewhere id k ne p =
      All-map _ _ k (λ b (q, r). put-IsMember e.fsms e.next_fsm id a b q r)
        (All-both _ _ k (members-apart e.fsms e.next_fsm id a k p ea (λ q. ne (sym q))) p)

  shrunk-IsSafe : IsSafe shrunk
  unfolding shrunk
  shrunk-IsSafe = record {
    nodes =
        All-map _ _ (drop_instance_all a e.fsm_by_expecting_event_id)
          (λ ns p. All-map _ _ ns (λ n ((g, eg), ne). (g, put-other e.fsms a n.fsm ne ∙ eg)) p)
          left;
    members = λ id {l = k} h.
        elim (get_elem?-set-cases e.fsm_by_instance_id f.id id (remove_node l a) h) [
          | inl (same, kept) ↦
              rw (kept, same)
                (All-map _ _ (remove_node l a)
                  (λ b (q, r). put-IsMember e.fsms e.next_fsm f.id a b q r)
                  (All-both _ _ (remove_node l a) (remove_node-apart l a (safe.distinct f.id here))
                    (All-remove_node _ l a (safe.members f.id here))))
          | inr (ne, old) ↦ elsewhere id k ne (safe.members id old)
        ];
    distinct = λ id {l = k} h.
        elim (get_elem?-set-cases e.fsm_by_instance_id f.id id (remove_node l a) h) [
          | inl (same, kept) ↦ rw kept (Distinct-remove_node l a (safe.distinct f.id here))
          | inr (ne, old) ↦ safe.distinct id old
        ];
  }

-- `_reset_engine_for_instance` on a machine of a safe engine returns, and ends that machine alone.
pub reset_engine_for_instance-IsGone :
    (e : Engine) (a : ℕ) {f : Fsm}
    → IsSafe e
    → e.fsms a ≡ some f
    → f.id < length e.fsm_by_instance_id
    → Ensures (reset_engine_for_instance e a) (IsGone a f.id)
unfolding reset_engine_for_instance left shrunk
reset_engine_for_instance-IsGone e a {f} safe ea h =
    let (l, here) = get_elem?-in e.fsm_by_instance_id f.id h in
    let rest = remove_node l a in
    let avail = if is_nil rest then f.id else e.avail_fsm_id in
    rw (ea, here, lt→ltb _ _ h)
      (record {
        safe = shrunk-IsSafe e a f l safe ea here avail;
        freed = ground arith;
        apart =
            All-map _ _ (drop_instance_all a e.fsm_by_expecting_event_id)
              (λ ns p. All-map _ _ ns (λ n q. q.1) p) (left e a f l safe ea here avail);
        available = λ q. ground (arith, get_elem?-set_self e.fsm_by_instance_id f.id rest h);
      })
