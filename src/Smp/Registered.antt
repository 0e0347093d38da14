-- ===== src/Smp/Registered.antt =====
-- Several threads against one, from the registration on (`mmt_smp_sec_register`,
-- `mmt_single_sec_register`).
use mmt_security.Prelude.{
  ℕ, ◌≡◌, refl, sym, ap, ◌∙◌, subst, none, List, [], ◌∷◌, ◌++◌, Bool, Run, ok, fault, ◌>>=◌, IfOk,
  IfOk-bind, All,
}
use mmt_security.Message.{Message}
use mmt_security.Rule.{Rule, ProtoAttribute}
use mmt_security.Handler.{
  Entry, Handler, new_entry, new_entries, combine_rules, single_sec_register,
}
use mmt_security.Handler.Consistent.{IsConsistent, single_sec_register-IsConsistent}
use mmt_security.Smp.{register_all}
use mmt_security.Smp.Bursts.{joined, messages}
use mmt_security.Smp.Waiting.{due}
use mmt_security.Smp.Partition.{all_rules}
use mmt_security.Smp.Agreement.{Thread, entries_of, IsServing}
use mmt_security.Smp.Work.{Work, ◌⊕◌, sum, sum-append}

-- What the registration of a rule makes.
abbrev pub made : List ProtoAttribute → ℕ → Rule → Work
made atts n r = new_entry atts n r >>= λ e. ok (e ∷ [], [])

abbrev no_calls : Run (List Entry) → Work
no_calls r = r >>= λ es. ok (es, [])

abbrev pub handlers_of : List Thread → List Handler
handlers_of [] = []
handlers_of ((h, bs) ∷ ts) = h ∷ handlers_of ts

abbrev pub all_entries : List Handler → List Entry
all_entries [] = []
all_entries (h ∷ hs) = h.entries ++ all_entries hs

new_entries-sum :
    (atts : List ProtoAttribute) (n : ℕ) (rs : List Rule)
    → no_calls (new_entries atts n rs) ≡ sum (made atts n) rs
unfolding new_entries ◌⊕◌
new_entries-sum atts n [] = refl
new_entries-sum atts n (r ∷ rs) =
    step (new_entry atts n r) (new_entries atts n rs)
    ∙ ap (λ w. made atts n r ⊕ w) (new_entries-sum atts n rs)
  where
    step :
        (u : Run Entry) (v : Run (List Entry))
        → no_calls (u >>= λ e. v >>= λ es. ok (e ∷ es)) ≡ (u >>= λ e. ok (e ∷ [], [])) ⊕ no_calls v
    step (fault c) v = refl
    step (ok e) (fault c) = refl
    step (ok e) (ok es) = refl

-- The handler of a registration.
abbrev built : Bool → List Entry → Handler
built b es = record {
  entries = es;
  has_callback = b;
  hash = combine_rules 0 es;
  messages_count = 0;
  flow_ids_to_ignore = none;
}

single_sec_register-built :
    (atts : List ProtoAttribute) (n : ℕ) (rs : List Rule) (b : Bool)
    → single_sec_register atts n rs b ≡ (new_entries atts n rs >>= λ es. ok (built b es))
unfolding single_sec_register
single_sec_register-built atts n rs b = refl

-- What the registration of a handler leaves.
pub record IsFresh (b : Bool) (h : Handler) : Type 0 where
  pub consistent : IsConsistent h
  pub free : h.flow_ids_to_ignore ≡ none
  pub callback : h.has_callback ≡ b

pub single_sec_register-IsFresh :
    (atts : List ProtoAttribute) (n : ℕ) (rs : List Rule) (b : Bool)
    → IfOk (single_sec_register atts n rs b) (IsFresh b)
single_sec_register-IsFresh atts n rs b =
    subst (λ r. IfOk r (IsFresh b)) (sym (single_sec_register-built atts n rs b))
      (last (new_entries atts n rs) (
        subst (λ r. IfOk r IsConsistent) (single_sec_register-built atts n rs b)
          (single_sec_register-IsConsistent atts n rs b)))
  where
    last :
        (r : Run (List Entry))
        → IfOk (r >>= λ es. ok (built b es)) IsConsistent
        → IfOk (r >>= λ es. ok (built b es)) (IsFresh b)
    last (fault c) h = tt
    last (ok es) h = record { consistent = h; free = refl; callback = refl }

-- The entries of one handler, and those of several.
abbrev pub entries_work : Run Handler → Work
entries_work r = r >>= λ h. ok (h.entries, [])

abbrev pub all_entries_work : Run (List Handler) → Work
all_entries_work r = r >>= λ hs. ok (all_entries hs, [])

pub single_sec_register-sum :
    (atts : List ProtoAttribute) (n : ℕ) (rs : List Rule) (b : Bool)
    → entries_work (single_sec_register atts n rs b) ≡ sum (made atts n) rs
single_sec_register-sum atts n rs b =
    ap entries_work (single_sec_register-built atts n rs b)
    ∙ last (new_entries atts n rs)
    ∙ new_entries-sum atts n rs
  where
    last : (r : Run (List Entry)) → entries_work (r >>= λ es. ok (built b es)) ≡ no_calls r
    last (ok es) = refl
    last (fault c) = refl

pub register_all-sum :
    (atts : List ProtoAttribute) (n : ℕ) (b : Bool) (all : List (List Rule))
    → all_entries_work (register_all atts n b all) ≡ sum (made atts n) (all_rules all)
unfolding register_all ◌⊕◌
register_all-sum atts n b [] = refl
register_all-sum atts n b (rules ∷ all) =
    step (single_sec_register atts n rules b) (register_all atts n b all)
    ∙ ap (λ w. w ⊕ all_entries_work (register_all atts n b all))
        (single_sec_register-sum atts n rules b)
    ∙ ap (λ w. sum (made atts n) rules ⊕ w) (register_all-sum atts n b all)
    ∙ sym (sum-append (made atts n) rules (all_rules all))
  where
    step :
        (u : Run Handler) (v : Run (List Handler))
        → all_entries_work (u >>= λ h. v >>= λ hs. ok (h ∷ hs))
          ≡ entries_work u ⊕ all_entries_work v
    step (fault c) v = refl
    step (ok h) (fault c) = refl
    step (ok h) (ok hs) = refl

pub register_all-IsFresh :
    (atts : List ProtoAttribute) (n : ℕ) (b : Bool) (all : List (List Rule))
    → IfOk (register_all atts n b all) (All (IsFresh b))
unfolding register_all
register_all-IsFresh atts n b [] = tt
register_all-IsFresh atts n b (rules ∷ all) =
    IfOk-bind (single_sec_register atts n rules b) _ (IsFresh b) (All (IsFresh b))
      (single_sec_register-IsFresh atts n rules b)
      (λ h _ f.
        IfOk-bind (register_all atts n b all) _ (All (IsFresh b)) (All (IsFresh b))
          (register_all-IsFresh atts n b all) (λ hs _ fs. (f, fs)))

-- Each thread gets what concerns its handler, and then the null message.
abbrev pub Gets : List Message → Thread → Type 0
Gets ms (h, bs) = joined bs ≡ due h.hash (messages ms ++ none ∷ [])

pub serving :
    (b : Bool) (ms : List Message) (ts : List Thread)
    → All (IsFresh b) (handlers_of ts)
    → All (Gets ms) ts
    → All (IsServing b ms) ts
serving b ms [] f g = tt
serving b ms ((h, bs) ∷ ts) (f, fs) (g, gs) = (
  record { got = g; consistent = f.consistent; free = f.free; callback = f.callback },
  serving b ms ts fs gs,
)

pub entries_of-handlers : (ts : List Thread) → all_entries (handlers_of ts) ≡ entries_of ts
entries_of-handlers [] = refl
entries_of-handlers ((h, bs) ∷ ts) = ap (λ es. h.entries ++ es) (entries_of-handlers ts)
