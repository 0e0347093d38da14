-- ===== src/Engine/Safe.antt =====
-- The invariant of an engine's heap, its nodes and its classes, and `_reset_engine_for_fsm`.
use Prim.Native.Nat.{◌<◌}
use mmt_security.Prelude.{
  ℕ, ◌≡◌, ◌≢◌, refl, sym, ◌∙◌, inl, inr, Option, none, some, List, [], ◌∷◌, arith, length, set,
  get_elem?, get_elem?-set_self, get_elem?-set-cases, ok, Ensures, Ensures-bind, All, All-map,
  Distinct, get_elem?-in, lt→ltb,
}
use mmt_security.Fsm.{Fsm}
use mmt_security.Engine.Store.{TranNode, Engine, store, put}
use mmt_security.Engine.Reset.{drop_class, drop_class_all, free_all, reset_engine_for_fsm}

abbrev pub Heap : Type 0
Heap = ℕ → Option Fsm

-- The node's machine has not been freed.
abbrev pub IsLive : Heap → TranNode → Type 0
IsLive h n = (f : Fsm) × (h n.fsm ≡ some f)

-- The address is below `bound` and holds a machine of the class `id`.
abbrev pub IsMember : Heap → ℕ → ℕ → ℕ → Type 0
IsMember h bound id a = (a < bound) × ((f : Fsm) × (h a ≡ some f) × (f.id ≡ id))

pub record IsSafe (e : Engine) : Type 0 where
  pub nodes : All (All (IsLive e.fsms)) e.fsm_by_expecting_event_id
  pub members :
      (id : ℕ) {l : List ℕ}
      → get_elem? e.fsm_by_instance_id id ≡ some l
      → All (IsMember e.fsms e.next_fsm id) l
  pub distinct : (id : ℕ) {l : List ℕ} → get_elem? e.fsm_by_instance_id id ≡ some l → Distinct l

-- What is left of a list of nodes when a class is dropped: live machines of other classes.
abbrev IsOther : Heap → ℕ → TranNode → Type 0
IsOther h id n = (f : Fsm) × (h n.fsm ≡ some f) × (f.id ≢ id)

drop_class-IsOther :
    (e : Engine) (id : ℕ) (l : List TranNode)
    → All (IsLive e.fsms) l
    → Ensures (drop_class e id l) (All (IsOther e.fsms id))
unfolding drop_class
drop_class-IsOther e id [] h = tt
drop_class-IsOther e id (n ∷ l) h = ground (arith, drop_class-IsOther e id l)

drop_class_all-IsOther :
    (e : Engine) (id : ℕ) (ls : List (List TranNode))
    → All (All (IsLive e.fsms)) ls
    → Ensures (drop_class_all e id ls) (All (All (IsOther e.fsms id)))
unfolding drop_class_all
drop_class_all-IsOther e id [] h = tt
drop_class_all-IsOther e id (l ∷ ls) h =
    ground (arith, drop_class-IsOther e id l h.0, drop_class_all-IsOther e id ls h.1)

-- The heap once every machine of a list is freed.
clear : Heap → List ℕ → Heap
clear h [] = h
clear h (a ∷ l) = clear (put h a none) l

clear-other : (h : Heap) (l : List ℕ) (b : ℕ) → All (λ a. a ≢ b) l → clear h l b ≡ h b
unfolding clear
clear-other h [] b p = refl
clear-other h (a ∷ l) b p = clear-other (put h a none) l b p.1 ∙ ground (arith, p.0)

abbrev IsHeld : Heap → ℕ → Type 0
IsHeld h a = (f : Fsm) × (h a ≡ some f)

free_all-clear :
    (e : Engine) (l : List ℕ)
    → All (IsHeld e.fsms) l
    → Distinct l
    → free_all e l ≡ ok (record e { fsms = clear e.fsms l })
unfolding free_all clear
free_all-clear e [] h d = refl
free_all-clear e (a ∷ l) ((f, e₁), h) (d, ds) =
    rw e₁ (free_all-clear (store e a none) l (still l h d) ds)
  where
    still :
        (l : List ℕ)
        → All (IsHeld e.fsms) l
        → All (λ y. y ≢ a) l
        → All (IsHeld (put e.fsms a none)) l
    still [] h d = tt
    still (b ∷ l) ((g, e₂), h) (d, ds) = ((g, ground (arith, d)), still l h ds)

-- A machine of another class is none of the class's members.
pub members-apart :
    (h : Heap) (bound id b : ℕ) {g : Fsm} (l : List ℕ)
    → All (IsMember h bound id) l
    → h b ≡ some g
    → g.id ≢ id
    → All (λ a. a ≢ b) l
members-apart h bound id b {g} [] p e ne = tt
members-apart h bound id b {g} (a ∷ l) ((_, (f, e₁, same)), p) e ne =
    (λ q. let i : f ≡ g = cc in ne (rw (← i) same), members-apart h bound id b l p e ne)

module _ (e : Engine) (f : Fsm) (l : List ℕ) (safe : IsSafe e)
    (here : get_elem? e.fsm_by_instance_id f.id ≡ some l) where
  -- The heap without the class of `f`.
  without : Heap
  without = clear e.fsms l

  without-other : (b : ℕ) {g : Fsm} → e.fsms b ≡ some g → g.id ≢ f.id → without b ≡ some g
  unfolding without
  without-other b eb ne =
      clear-other e.fsms l b
        (members-apart e.fsms e.next_fsm f.id b l (safe.members f.id here) eb ne)
      ∙ eb

  cleared : List (List TranNode) → Engine
  cleared lists = record e {
    fsm_by_expecting_event_id = lists;
    fsms = without;
    fsm_by_instance_id = set e.fsm_by_instance_id f.id [];
    avail_fsm_id = f.id;
  }

  without-IsMember :
      (id a : ℕ) → id ≢ f.id → IsMember e.fsms e.next_fsm id a → IsMember without e.next_fsm id a
  without-IsMember id a ne (below, (g, ea, same)) =
      (below, (g, without-other a ea (λ q. ne (sym same ∙ q)), same))

  cleared-IsSafe :
      (lists : List (List TranNode))
      → All (All (IsOther e.fsms f.id)) lists
      → IsSafe (cleared lists)
  unfolding cleared
  cleared-IsSafe lists others = record {
    nodes =
        All-map _ _ lists (λ l p. All-map _ _ l (λ n (g, eb, ne). (g, without-other n.fsm eb ne)) p)
          others;
    members = λ id {l = k} h. elim (get_elem?-set-cases e.fsm_by_instance_id f.id id [] h) [
      | inl (same, k-nil) ↦ rw k-nil tt
      | inr (ne, old) ↦ All-map _ _ k (λ a p. without-IsMember id a ne p) (safe.members id old)
    ];
    distinct = λ id {l = k} h. elim (get_elem?-set-cases e.fsm_by_instance_id f.id id [] h) [
      | inl (same, k-nil) ↦ rw k-nil tt
      | inr (ne, old) ↦ safe.distinct id old
    ];
  }

-- What ending a class leaves: a safe engine, the class empty and its id the one to try first, and
-- no node that waits for a machine of the class.
pub record IsEnded (id : ℕ) (e : Engine) : Type 0 where
  pub safe : IsSafe e
  pub empty : get_elem? e.fsm_by_instance_id id ≡ some []
  pub available : e.avail_fsm_id ≡ id
  pub apart :
      All (All (λ n. (g : Fsm) × (e.fsms n.fsm ≡ some g) × (g.id ≢ id))) e.fsm_by_expecting_event_id

-- `_reset_engine_for_fsm` on a machine of a safe engine frees nothing twice and reads nothing that
-- is freed: it returns, and ends the machine's class.
pub reset_engine_for_fsm-IsEnded :
    (e : Engine) (a : ℕ) {f : Fsm}
    → IsSafe e
    → e.fsms a ≡ some f
    → f.id < length e.fsm_by_instance_id
    → Ensures (reset_engine_for_fsm e a) (IsEnded f.id)
unfolding reset_engine_for_fsm without cleared
reset_engine_for_fsm-IsEnded e a {f} safe ea h =
    let (l, here) = get_elem?-in e.fsm_by_instance_id f.id h in
    rw ea (
      Ensures-bind (drop_class_all e f.id e.fsm_by_expecting_event_id) _
        (All (All (IsOther e.fsms f.id))) (IsEnded f.id)
        (drop_class_all-IsOther e f.id e.fsm_by_expecting_event_id safe.nodes)
        (λ lists _ others.
          rw
            (
              here,
              free_all-clear (record e { fsm_by_expecting_event_id = lists }) l
                  (All-map _ _ l (λ b p. (p.1.0, p.1.1)) (safe.members f.id here))
                  (safe.distinct f.id here),
              lt→ltb _ _ h,
            )
            (record {
              safe = cleared-IsSafe e f l safe here lists others;
              empty = get_elem?-set_self e.fsm_by_instance_id f.id [] h;
              available = refl;
              apart =
                  All-map _ _ lists
                    (λ ns p.
                      All-map _ _ ns
                        (λ n q. (q.0, without-other e f l safe here n.fsm q.1 q.2, q.2)) p)
                    others;
            })))
