-- ===== src/Smp/Work.antt =====
-- What threads do together, whatever the order in which they do it (src/lib/mmt_smp_security.c): the
-- entries that they leave and the calls that they make.
use mmt_security.Prelude.{
  ◌≡◌, refl, sym, ap, ◌∙◌, subst, List, [], ◌∷◌, ◌++◌, Run, ok, fault, ◌>>=◌, Never,
}
use mathlib.Core.Logic.{∥∥₁_elim}
use mathlib.Core.List.{Perm, Permᴰ, Perm-prop, append_assoc, perm_append_comm}
use mathlib.Core.List.Perm as Perm
use mmt_security.Handler.{Entry, Call}

abbrev pub Work : Type 0
Work = Run (List Entry × List Call)

-- The calls that were made before come first.
abbrev pub with_calls : List Call → Work → Work
with_calls calls w = w >>= λ (es, calls'). ok (es, calls ++ calls')

infixr 5 ◌⊕◌
-- Both, if neither ends in a fault.
unfoldable pub ◌⊕◌ : Work → Work → Work
v ⊕ w = do (es, calls) ← v; (es', calls') ← w; ok (es ++ es', calls ++ calls')

-- Both end in a fault, or both leave the same entries and make the same calls, up to the order.
abbrev pub IsSameWork : Work → Work → Type 0
IsSameWork (ok (es, calls)) (ok (es', calls')) = Perm es es' × Perm calls calls'
IsSameWork (fault e) (fault e') = Unit {0}
IsSameWork (ok r) (fault e) = Never
IsSameWork (fault e) (ok r) = Never

pub same_refl : (v : Work) → IsSameWork v v
same_refl (ok (es, calls)) = (Perm.refl es, Perm.refl calls)
same_refl (fault e) = tt

pub same_of_eq : {v w : Work} → v ≡ w → IsSameWork v w
same_of_eq {v} e = subst (IsSameWork v) e (same_refl v)

pub same_trans : (u v w : Work) → IsSameWork u v → IsSameWork v w → IsSameWork u w
same_trans (ok u) (ok v) (ok w) (p, q) (p', q') = (Perm.trans p p', Perm.trans q q')
same_trans (ok u) (ok v) (fault e) p q = elim q [ ]
same_trans (ok u) (fault d) w p q = elim p [ ]
same_trans (fault c) (ok v) w p q = elim p [ ]
same_trans (fault c) (fault d) (ok w) p q = elim q [ ]
same_trans (fault c) (fault d) (fault e) p q = tt

pub same_sym : (v w : Work) → IsSameWork v w → IsSameWork w v
same_sym (ok v) (ok w) (p, q) = (Perm.symm p, Perm.symm q)
same_sym (ok v) (fault e) p = elim p [ ]
same_sym (fault d) (ok w) p = elim p [ ]
same_sym (fault d) (fault e) p = tt

pub same_calls :
    (calls : List Call) (v w : Work)
    → IsSameWork v w
    → IsSameWork (with_calls calls v) (with_calls calls w)
same_calls calls (ok v) (ok w) (p, q) = (p, Perm.append_left calls q)
same_calls calls (ok v) (fault e) p = elim p [ ]
same_calls calls (fault d) (ok w) p = elim p [ ]
same_calls calls (fault d) (fault e) p = tt

pub same_both :
    (u u' v v' : Work) → IsSameWork u u' → IsSameWork v v' → IsSameWork (u ⊕ v) (u' ⊕ v')
unfolding ◌⊕◌
same_both (ok u) (ok u') (ok v) (ok v') (p, q) (p', q') = (Perm.append p p', Perm.append q q')
same_both (ok u) (ok u') (ok v) (fault e) p q = elim q [ ]
same_both (ok u) (ok u') (fault d) (ok v') p q = elim q [ ]
same_both (ok u) (ok u') (fault d) (fault e) p q = tt
same_both (ok u) (fault e) v v' p q = elim p [ ]
same_both (fault d) (ok u') v v' p q = elim p [ ]
same_both (fault d) (fault e) v v' p q = tt

pub ⊕-assoc : (u v w : Work) → (u ⊕ v) ⊕ w ≡ u ⊕ (v ⊕ w)
unfolding ◌⊕◌
⊕-assoc (fault e) v w = refl
⊕-assoc (ok u) (fault e) w = refl
⊕-assoc (ok u) (ok v) (fault e) = refl
⊕-assoc (ok (es, cs)) (ok (es', cs')) (ok (es'', cs'')) =
    rw (append_assoc es es' es'', append_assoc cs cs' cs'') refl

pub ⊕-comm : (v w : Work) → IsSameWork (v ⊕ w) (w ⊕ v)
unfolding ◌⊕◌
⊕-comm (fault d) (fault e) = tt
⊕-comm (fault d) (ok w) = tt
⊕-comm (ok v) (fault e) = tt
⊕-comm (ok (es, cs)) (ok (es', cs')) = (perm_append_comm es es', perm_append_comm cs cs')

pub nothing-⊕ : (w : Work) → ok ([], []) ⊕ w ≡ w
unfolding ◌⊕◌
nothing-⊕ (ok w) = refl
nothing-⊕ (fault e) = refl

-- The second of three goes first.
pub ⊕-swap : (u v w : Work) → IsSameWork (u ⊕ v ⊕ w) (v ⊕ u ⊕ w)
⊕-swap u v w = same_trans (u ⊕ v ⊕ w) ((u ⊕ v) ⊕ w) (v ⊕ u ⊕ w) (same_of_eq (sym (⊕-assoc u v w))) (
    same_trans ((u ⊕ v) ⊕ w) ((v ⊕ u) ⊕ w) (v ⊕ u ⊕ w)
      (same_both (u ⊕ v) (v ⊕ u) w w (⊕-comm u v) (same_refl w)) (same_of_eq (⊕-assoc v u w)))

Never-prop : IsProp (Never {0})
Never-prop x y = elim x [ ]

pub IsSameWork-prop : (v w : Work) → IsProp (IsSameWork v w)
IsSameWork-prop (ok v) (ok w) = λ x y k. (Perm-prop x.0 y.0 k, Perm-prop x.1 y.1 k)
IsSameWork-prop (ok v) (fault e) = Never-prop
IsSameWork-prop (fault d) (ok w) = Never-prop
IsSameWork-prop (fault d) (fault e) = λ x y k. tt

rotate_calls : (c cs d ds : List Call) → Perm ((c ++ cs) ++ (d ++ ds)) ((c ++ d) ++ (cs ++ ds))
rotate_calls c cs d ds =
    rw (append_assoc c cs (d ++ ds), append_assoc c d (cs ++ ds))
      (Perm.append_left c (
        rw (sym (append_assoc cs d ds), sym (append_assoc d cs ds))
          (Perm.append_right ds (perm_append_comm cs d))))

-- A part of the work that does not wait for what the rest begins with.
pub same_pull :
    (calls : List Call) (u v : Work) (next : List Entry → Work)
    → IsSameWork
        (v >>= λ (es, calls'). with_calls (calls ++ calls') (u ⊕ next es))
        (with_calls calls u ⊕ (v >>= λ (es, calls'). with_calls calls' (next es)))
unfolding ◌⊕◌
same_pull calls (fault d) (fault e) next = tt
same_pull calls (ok u) (fault e) next = tt
same_pull calls (fault d) (ok (es, calls')) next = tt
same_pull calls (ok (fs, c)) (ok (es, calls')) next = last (next es)
  where
    last :
        (w : Work)
        → IsSameWork
            (with_calls (calls ++ calls') (ok (fs, c) ⊕ w))
            (with_calls calls (ok (fs, c)) ⊕ with_calls calls' w)
    last (fault e) = tt
    last (ok (gs, d)) = (Perm.refl (fs ++ gs), rotate_calls calls calls' c d)

-- The work of all.
abbrev pub sum : {A : Type 0} → (A → Work) → List A → Work
sum f [] = ok ([], [])
sum f (x ∷ xs) = f x ⊕ sum f xs

pub sum-append :
    {A : Type 0} (f : A → Work) (xs ys : List A) → sum f (xs ++ ys) ≡ sum f xs ⊕ sum f ys
sum-append f [] ys = sym (nothing-⊕ (sum f ys))
sum-append f (x ∷ xs) ys =
    ap (λ w. f x ⊕ w) (sum-append f xs ys) ∙ sym (⊕-assoc (f x) (sum f xs) (sum f ys))

sum-Permᴰ :
    {A : Type 0} (f : A → Work) {xs ys : List A} → Permᴰ xs ys → IsSameWork (sum f xs) (sum f ys)
sum-Permᴰ f Permᴰ.nil = same_refl (ok ([], []))
sum-Permᴰ f (Permᴰ.cons {a} {b} {l₁ = xs} {l₂ = ys} e p) =
    same_both (f a) (f b) (sum f xs) (sum f ys) (same_of_eq (ap f e)) (sum-Permᴰ f p)
sum-Permᴰ f (Permᴰ.swap {a} {b} {a' = a'} {b' = b'} {l = l} e e') =
    same_trans (f a ⊕ f b ⊕ sum f l) (f b ⊕ f a ⊕ sum f l) (f a' ⊕ f b' ⊕ sum f l)
      (⊕-swap (f a) (f b) (sum f l)) (same_of_eq (rw (e, e') refl))
sum-Permᴰ f (Permᴰ.trans {l₁ = xs} {l₂ = ys} {l₃ = zs} p q) =
    same_trans (sum f xs) (sum f ys) (sum f zs) (sum-Permᴰ f p) (sum-Permᴰ f q)

-- The order of the parts does not matter.
pub sum-perm :
    {A : Type 0} (f : A → Work) {xs ys : List A} → Perm xs ys → IsSameWork (sum f xs) (sum f ys)
sum-perm f {xs} {ys} p = ∥∥₁_elim p (IsSameWork-prop (sum f xs) (sum f ys)) (sum-Permᴰ f)
