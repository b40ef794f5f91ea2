-- ===== src/PodWebhook/Selector.antt =====
-- The selectors of a ticket request: what validateSelectorFormat accepts and what
-- findTicketsBySelector asks the server for.
use korder.Prelude.{
  ◌≡◌, refl, Bool, true, false, none, List, [], ◌∷◌, ◌++◌, arith, allb, is_empty, All, ◌≢◌, inl,
  inr, Bool-cases,
}
use korder.Prelude.Text.{Text, insert}
use korder.Prelude.Strings.{
  split, trim_space, trim_space-sane, split-append, split-Lacks, split-ne-nil, Lacks, NoSpace,
  is_space,
}
use korder.Api.Meta.{Pod, Labels}
use korder.Client.{Cluster, Trace, find_tickets}
use korder.PodWebhook.Find.{add_pair, add_pairs, find_by_selector}
use korder.PodWebhook.Validator.{is_pair, validate_selector}

is_empty-insert : (k v : Text) (m : Labels) → is_empty (insert k v m) ≡ false
unfolding insert
is_empty-insert k v [] = refl
is_empty-insert k v (p ∷ m) = ground arith

is_empty-add_pair :
    (parts : List Text) (m : Labels) → is_empty m ≡ false → is_empty (add_pair parts m) ≡ false
unfolding add_pair
is_empty-add_pair [] m h = h
is_empty-add_pair (k ∷ []) m h = h
is_empty-add_pair (k ∷ v ∷ []) m h = is_empty-insert (trim_space k) (trim_space v) m
is_empty-add_pair (k ∷ v ∷ w ∷ rest) m h = h

is_empty-add_pairs :
    (ps : List Text) (m : Labels) → is_empty m ≡ false → is_empty (add_pairs ps m) ≡ false
unfolding add_pairs
is_empty-add_pairs [] m h = h
is_empty-add_pairs (p ∷ ps) m h =
    is_empty-add_pairs ps (add_pair (split b'=' (trim_space p)) m)
      (is_empty-add_pair (split b'=' (trim_space p)) m h)

is_pair-adds :
    (parts : List Text) (m : Labels) → is_pair parts ≡ true → is_empty (add_pair parts m) ≡ false
unfolding is_pair add_pair
is_pair-adds [] m h = cc
is_pair-adds (k ∷ []) m h = cc
is_pair-adds (k ∷ v ∷ []) m h = is_empty-insert (trim_space k) (trim_space v) m
is_pair-adds (k ∷ v ∷ w ∷ rest) m h = cc

abbrev part_is_pair : Text → Bool
part_is_pair p = is_pair (split b'=' (trim_space p))

pairs_add :
    (parts : List Text)
    → parts ≢ []
    → allb part_is_pair parts ≡ true
    → is_empty (add_pairs parts []) ≡ false
unfolding add_pairs
pairs_add [] ne h = absurd (ne refl)
pairs_add (p ∷ ps) ne h =
    is_empty-add_pairs ps (add_pair (split b'=' (trim_space p)) [])
      (is_pair-adds (split b'=' (trim_space p)) [] (ground arith))

-- A selector that validateSelectorFormat accepts is one that findTicketsBySelector can use: it
-- yields at least one label, and the tickets with the labels are asked for in the pod's namespace.
pub validate_selector-finds :
    (env : Cluster) (pod : Pod) (selector : Text) (tr : Trace)
    → validate_selector selector ≡ none
    → (labels : Labels) × (is_empty labels ≡ false)
      × (find_by_selector env pod selector tr ≡ find_tickets env pod.meta.namespace labels tr)
unfolding validate_selector find_by_selector
validate_selector-finds env pod selector tr valid =
    let parts = split b',' selector in
    elim (Bool-cases (allb part_is_pair parts)) [
      | inr bad ↦ absurd (ground arith)
      | inl good ↦
          let full = pairs_add parts (split-ne-nil b',' selector) good in
          (add_pairs parts [], full, ground arith)
    ]

-- A key or a value that can be printed as it is.
abbrev pub IsPlain : Text → Type 0
IsPlain t = (t ≢ []) × Lacks b',' t × Lacks b'=' t × NoSpace t

abbrev pub print_pair : Text × Text → Text
print_pair (k, v) = k ++ b'=' ∷ v

-- key=value pairs, separated by commas
abbrev pub print_pairs : Text × Text → Labels → Text
print_pairs p [] = print_pair p
print_pairs p (q ∷ qs) = print_pair p ++ b',' ∷ print_pairs q qs

abbrev pub insert_all : Labels → Labels → Labels
insert_all [] m = m
insert_all ((k, v) ∷ ps) m = insert_all ps (insert k v m)

abbrev pub IsPlainPair : Text × Text → Type 0
IsPlainPair (k, v) = IsPlain k × IsPlain v

All-append {ℓ κ} :
    {A : Type ℓ} (P : A → Type κ) (xs ys : List A) → All P xs → All P ys → All P (xs ++ ys)
All-append P [] ys hx hy = hy
All-append P (x ∷ xs) ys (h, hx) hy = (h, All-append P xs ys hx hy)

print_pair-Lacks : (k v : Text) → IsPlain k → IsPlain v → Lacks b',' (print_pair (k, v))
print_pair-Lacks k v (_, ck, _, _) (_, cv, _, _) = All-append _ k (b'=' ∷ v) ck (omega arith, cv)

print_pair-NoSpace : (k v : Text) → IsPlain k → IsPlain v → NoSpace (print_pair (k, v))
unfolding is_space
print_pair-NoSpace k v (_, _, _, sk) (_, _, _, sv) = All-append _ k (b'=' ∷ v) sk (refl, sv)

split-print_pair :
    (k v : Text) → IsPlain k → IsPlain v → split b'=' (trim_space (print_pair (k, v))) ≡ k ∷ v ∷ []
split-print_pair k v hk hv =
    rw (trim_space-sane (print_pair (k, v)) (print_pair-NoSpace k v hk hv))
      (rw (split-append b'=' k v hk.2) (rw (split-Lacks b'=' v hv.2)))

add_pair-print :
    (p : Text × Text) (m : Labels)
    → IsPlainPair p
    → add_pair (split b'=' (trim_space (print_pair p))) m ≡ insert p.0 p.1 m
unfolding add_pair
add_pair-print (k, v) m (hk, hv) =
    rw (split-print_pair k v hk hv) (rw (trim_space-sane k hk.3, trim_space-sane v hv.3))

add_pairs-print :
    (p : Text × Text) (ps m : Labels)
    → IsPlainPair p
    → All IsPlainPair ps
    → add_pairs (split b',' (print_pairs p ps)) m ≡ insert_all (p ∷ ps) m
unfolding add_pairs
add_pairs-print (k, v) [] m (hk, hv) _ =
    rw (split-Lacks b',' (print_pair (k, v)) (print_pair-Lacks k v hk hv))
      (add_pair-print (k, v) m (hk, hv))
add_pairs-print (k, v) (q ∷ qs) m (hk, hv) (hq, hqs) =
    rw (split-append b',' (print_pair (k, v)) (print_pairs q qs) (print_pair-Lacks k v hk hv)) (
      rw (add_pairs, add_pair-print (k, v) m (hk, hv)) (add_pairs-print q qs (insert k v m) hq hqs))

is_empty-insert_all : (ps m : Labels) → is_empty m ≡ false → is_empty (insert_all ps m) ≡ false
is_empty-insert_all [] m h = h
is_empty-insert_all ((k, v) ∷ ps) m h =
    is_empty-insert_all ps (insert k v m) (is_empty-insert k v m)

-- Printed key=value pairs are read back: for keys and values that are not empty and have no comma, no
-- equals sign and no space, findTicketsBySelector lists the tickets with exactly those labels, the
-- later of two pairs with one key.
pub find_by_selector-print_pairs :
    (env : Cluster) (pod : Pod) (p : Text × Text) (ps : Labels) (tr : Trace)
    → IsPlainPair p
    → All IsPlainPair ps
    → find_by_selector env pod (print_pairs p ps) tr
      ≡ find_tickets env pod.meta.namespace (insert_all (p ∷ ps) []) tr
unfolding find_by_selector
find_by_selector-print_pairs env pod p ps tr hp hps =
    rw (add_pairs-print p ps [] hp hps)
      (rw (is_empty-insert_all ps (insert p.0 p.1 []) (is_empty-insert p.0 p.1 [])))
