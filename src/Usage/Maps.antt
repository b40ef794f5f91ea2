-- ===== src/Usage/Maps.antt =====
-- Resource lists as maps: Go visits the entries of a map in any order, and the decision whether
-- limits are exceeded does not depend on it.
use mathlib.Core.Bool.{Bool-set}
use mathlib.Core.Logic.{∥∥₁_elim}
use mathlib.Core.List.{Perm, Permᴰ}
use korder.Prelude.{
  ◌≡◌, refl, ◌∙◌, ap, ap₂, sym, subst, Bool, not, ◌&&◌, Option, none, some, List, [], ◌∷◌, arith,
  allb, if◌then◌else◌, inl, inr, Option-cases,
}
use korder.Prelude.Text.{Text, text_eq, text_eq_iff, lookup, insert, lookup-insert}
use korder.Api.Meta.{ResourceList, Quantity}
use korder.Client.{Cluster}
use korder.Usage.{project, is_exceeded}
use korder.Usage.Within.{within_limit, is_exceeded-allb}

-- No name of a map comes twice.
unfoldable pub IsMap : ResourceList → Type 0
IsMap [] = Unit
IsMap ((name, q) ∷ rs) = (lookup name rs ≡ none) × IsMap rs

pub insert-IsMap : (name : Text) (q : _) (rs : ResourceList) → IsMap rs → IsMap (insert name q rs)
unfolding IsMap insert lookup
insert-IsMap name q [] h = (refl, tt)
insert-IsMap name q ((n, r) ∷ rs) (new, h) = ground (
  arith,
  lookup-insert name n q rs,
  text_eq_iff name n,
  text_eq_iff n name,
  insert-IsMap name q rs h,
)

-- A request on top of a usage, where there are such.
abbrev sum_of : Cluster → Option Quantity → Option Quantity → Option Quantity
sum_of env used none = used
sum_of env none (some q) = some q
sum_of env (some u) (some q) = some (env.add_quantity u q)

-- The projected usage has under each name the sum of what is used and of what is requested.
pub lookup-project :
    (env : Cluster) (name : Text) (usage requests : ResourceList)
    → IsMap requests
    → lookup name (project env usage requests)
      ≡ sum_of env (lookup name usage) (lookup name requests)
unfolding project IsMap lookup
lookup-project env name usage [] h = refl
lookup-project env name usage ((n, q) ∷ rs) (new, h) = elim (Option-cases (lookup n usage)) [
  | inl missing ↦ ground (
    arith,
    lookup-project env name (insert n q usage) rs h,
    lookup-insert n name q usage,
    text_eq_iff n name,
  )
  | inr (u, used) ↦
      let total = env.add_quantity u q in
      ground (
        arith,
        lookup-project env name (insert n total usage) rs h,
        lookup-insert n name total usage,
        text_eq_iff n name,
      )
]

allb-Permᴰ {ℓ} : {A : Type ℓ} (p : A → Bool) {xs ys : List A} → Permᴰ xs ys → allb p xs ≡ allb p ys
allb-Permᴰ p Permᴰ.nil = refl
allb-Permᴰ p (Permᴰ.cons e d) = ap₂ (λ x b. p x && b) e (allb-Permᴰ p d)
allb-Permᴰ p (Permᴰ.swap {a} {b} {a'} {b'} {l} e f) =
    let same_first : p a ≡ p b' = ap p e in let same_second : p b ≡ p a' = ap p f in ground arith
allb-Permᴰ p (Permᴰ.trans d e) = allb-Permᴰ p d ∙ allb-Permᴰ p e

-- A rearranged map is a map with the same entries.
abbrev AreSame : ResourceList → ResourceList → Type 0
AreSame xs ys = IsMap ys × ((name : Text) → lookup name xs ≡ lookup name ys)

swap-AreSame :
    (a b : Text × Quantity) (l : ResourceList) → IsMap (a ∷ b ∷ l) → AreSame (a ∷ b ∷ l) (b ∷ a ∷ l)
unfolding IsMap lookup
swap-AreSame (n, q) (m, r) l (first, (second, h)) = (
  (ground (arith, text_eq_iff n m, text_eq_iff m n), (ground arith, h)),
  λ name.
      ground
        (arith, text_eq_iff n m, text_eq_iff m n, text_eq_iff n name, text_eq_iff m name, first),
)

Permᴰ-AreSame : {xs ys : ResourceList} → Permᴰ xs ys → IsMap xs → AreSame xs ys
unfolding IsMap lookup
Permᴰ-AreSame Permᴰ.nil h = (tt, λ name. refl)
Permᴰ-AreSame (Permᴰ.cons {a} {b} {l₁} {l₂} e d) (new, h) =
    let (h', same) = Permᴰ-AreSame d h in
    (
      (sym (same b.0) ∙ ap (λ (x : Text × Quantity). lookup x.0 l₁) (sym e) ∙ new, h'),
      λ name.
          ap₂ (λ (x : Text × Quantity) rest. if text_eq x.0 name then some x.1 else rest) e
            (same name),
    )
Permᴰ-AreSame (Permᴰ.swap {a} {b} {a'} {b'} {l} e f) h =
    subst (λ x. AreSame (a ∷ b ∷ l) (x ∷ b' ∷ l)) f
      (subst (λ x. AreSame (a ∷ b ∷ l) (b ∷ x ∷ l)) e (swap-AreSame a b l h))
Permᴰ-AreSame (Permᴰ.trans d e) h =
    let (h', same) = Permᴰ-AreSame d h in
    let (h'', same') = Permᴰ-AreSame e h' in (h'', λ name. same name ∙ same' name)

within_limit-same :
    (env : Cluster) (usage usage' limits : ResourceList)
    → ((name : Text) → lookup name usage ≡ lookup name usage')
    → allb (within_limit env usage) limits ≡ allb (within_limit env usage') limits
within_limit-same env usage usage' [] same = refl
within_limit-same env usage usage' ((name, limit) ∷ limits) same =
    ground (arith, same name, within_limit-same env usage usage' limits same)

is_exceeded-Permᴰ :
    (env : Cluster) (usage : ResourceList) {requests requests' limits limits' : ResourceList}
    → IsMap requests
    → Permᴰ requests requests'
    → Permᴰ limits limits'
    → is_exceeded env (project env usage requests) limits
      ≡ is_exceeded env (project env usage requests') limits'
is_exceeded-Permᴰ env usage {requests} {requests'} {limits} {limits'} h d e =
    let (h', same) = Permᴰ-AreSame d h in
    let a = project env usage requests in
    let b = project env usage requests' in
    let projected = λ (name : Text).
      lookup-project env name usage requests h
      ∙ ap (sum_of env (lookup name usage)) (same name)
      ∙ sym (lookup-project env name usage requests' h') in
    is_exceeded-allb env a limits
    ∙ ap not (within_limit-same env a b limits projected ∙ allb-Permᴰ (within_limit env b) e)
    ∙ sym (is_exceeded-allb env b limits')

-- The order in which Go visits its maps does not matter: however the requests and the limits are
-- rearranged, the projected usage exceeds the limits or does not, where no request comes twice.
pub is_exceeded-Perm :
    (env : Cluster) (usage requests requests' limits limits' : ResourceList)
    → IsMap requests
    → Perm requests requests'
    → Perm limits limits'
    → is_exceeded env (project env usage requests) limits
      ≡ is_exceeded env (project env usage requests') limits'
is_exceeded-Perm env usage requests requests' limits limits' h p q =
    let goal = is_exceeded env (project env usage requests) limits in
    let goal' = is_exceeded env (project env usage requests') limits' in
    ∥∥₁_elim p (Bool-set goal goal')
      (λ d. ∥∥₁_elim q (Bool-set goal goal') (λ e. is_exceeded-Permᴰ env usage h d e))
