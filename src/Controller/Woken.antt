-- ===== src/Controller/Woken.antt =====
-- Which objects a change wakes, given an API server that lists by an index as documented.
use mathlib.Core.List.{Memᴰ}
use mathlib.Core.Path.{subst}
use text.Mathlib.TextEquality.{eq_iff}
use text.Mathlib.TextPositions.{eq_refl}
use runbooks.Prelude.{
  String, ◌≡◌, refl, sym, ap, ◌∙◌, ◌==◌, if◌then◌else◌, Bool, true, false, ◌&&◌, ◌||◌, Option, none,
  some, List, [], ◌∷◌, arith,
}
use runbooks.Kube.{Key}
use runbooks.Program.{ok, list, History, Env, Program, Outcome, finished, run, run-step}
use runbooks.Api.{ObjectRef, Kind, model, dataset, Object, metadata}
use runbooks.Controller.Status.{key_of}
use runbooks.Controller.Watches.{
  Index, notebook_model, notebook_dataset, model_model, model_dataset, server_model, indexed_kind,
  field, names, index_values, requests, requests_for, find, find_notebooks_for_model,
  find_notebooks_for_dataset, find_models_for_base_model, find_models_for_dataset,
  find_servers_for_model,
}

both : (a b : Bool) → (a && b) ≡ true → (a ≡ true) × (b ≡ true)
both true b held = (refl, held)
both false b held = cc

any_is : String → List String → Bool
any_is name [] = false
any_is name (s ∷ ss) = s == name || any_is name ss

-- An object is listed if it is in the namespace and has the value in the index.
unfoldable pub is_listed : (i : Index) → String → String → Object (indexed_kind i) → Bool
unfolding any_is index_values
is_listed i name namespace o =
    (metadata (indexed_kind i) o).namespace == namespace && any_is name (index_values i o)

-- The objects that a list by the index is answered with, of all there are.
unfoldable pub listed :
    (i : Index) → String → String → List (Object (indexed_kind i)) → List (Object (indexed_kind i))
unfolding is_listed
listed i name namespace [] = []
listed i name namespace (o ∷ os) =
    let rest = listed i name namespace os in if is_listed i name namespace o then o ∷ rest else rest

-- The reference that the reconcilers follow.
abbrev pub reference : (i : Index) → Object (indexed_kind i) → Option ObjectRef
reference notebook_model n = n.spec.model
reference notebook_dataset n = n.spec.dataset
reference model_model m = m.spec.model
reference model_dataset m = m.spec.dataset
reference server_model s = some s.spec.model

-- The object is in the namespace and refers to the name.
abbrev pub Refers : (i : Index) → String → String → Object (indexed_kind i) → Type 0
Refers i name namespace o =
    ((metadata (indexed_kind i) o).namespace ≡ namespace)
    × ((ref : ObjectRef) × (reference i o ≡ some ref) × (ref.name ≡ name))

names_refer :
    (r : Option ObjectRef) (name : String)
    → any_is name (names r) ≡ true
    → (ref : ObjectRef) × (r ≡ some ref) × (ref.name ≡ name)
unfolding any_is
names_refer none name held = cc
names_refer (some ref) name held = (ref, refl, ground (arith, eq_iff ref.name name))

index_values-names :
    (i : Index) (o : Object (indexed_kind i)) → index_values i o ≡ names (reference i o)
unfolding index_values
index_values-names notebook_model o = refl
index_values-names notebook_dataset o = refl
index_values-names model_model o = refl
index_values-names model_dataset o = refl
index_values-names server_model o = refl

-- What is listed refers to the name.
is_listed-Refers :
    (i : Index) (name namespace : String) (o : Object (indexed_kind i))
    → is_listed i name namespace o ≡ true
    → Refers i name namespace o
unfolding is_listed
is_listed-Refers i name namespace o held =
    let (space, values) =
      both ((metadata (indexed_kind i) o).namespace == namespace) (any_is name (index_values i o))
        held in
    (
      (eq_iff _ namespace).0 space,
      names_refer (reference i o) name (ap (any_is name) (sym (index_values-names i o)) ∙ values),
    )

-- What refers to the name is listed.
Refers-is_listed :
    (i : Index) (name namespace : String) (o : Object (indexed_kind i))
    → Refers i name namespace o
    → is_listed i name namespace o ≡ true
unfolding is_listed any_is
Refers-is_listed i name namespace o (space, (ref, refers, named)) =
    rw (space, index_values-names i o, refers, named, eq_refl namespace, eq_refl name) refl

module _ (i : Index) (name namespace : String) where
  -- An object of the list that is listed, and has the key.
  Source : List (Object (indexed_kind i)) → Key → Type 0
  Source all key =
      (o : Object (indexed_kind i)) × Memᴰ o all
      × (is_listed i name namespace o ≡ true)
      × (key ≡ key_of (metadata (indexed_kind i) o))

  kept-Mem :
      (p : Object (indexed_kind i)) (rest : List (Object (indexed_kind i))) (kept : Bool)
      {key : Key}
      → Memᴰ key (requests (indexed_kind i) rest)
      → Memᴰ key (requests (indexed_kind i) (if kept then p ∷ rest else rest))
  unfolding requests
  kept-Mem p rest true found = Memᴰ.tail found
  kept-Mem p rest false found = found

  listed-Mem :
      (o : Object (indexed_kind i)) (all : List (Object (indexed_kind i)))
      → Memᴰ o all
      → is_listed i name namespace o ≡ true
      → Memᴰ
          (key_of (metadata (indexed_kind i) o))
          (requests (indexed_kind i) (listed i name namespace all))
  unfolding listed requests
  listed-Mem o [] found held = elim found [ ]
  listed-Mem o (p ∷ all) (Memᴰ.head e) held =
      subst
        (λ q. Memᴰ (key_of (metadata (indexed_kind i) o)) (
          requests (indexed_kind i) (
            if is_listed i name namespace q
            then q ∷ listed i name namespace all
            else listed i name namespace all)))
        e (rw (held) (Memᴰ.head refl))
  listed-Mem o (p ∷ all) (Memᴰ.tail found) held =
      kept-Mem p (listed i name namespace all) (is_listed i name namespace p)
        (listed-Mem o all found held)

  further-Source :
      (p : Object (indexed_kind i)) (all : List (Object (indexed_kind i))) (key : Key)
      → Source all key
      → Source (p ∷ all) key
  unfolding Source
  further-Source p all key (o, found, held, same) = (o, Memᴰ.tail found, held, same)

  kept-Source :
      (p : Object (indexed_kind i)) (all rest : List (Object (indexed_kind i))) (key : Key)
      (kept : Bool)
      → is_listed i name namespace p ≡ kept
      → (Memᴰ key (requests (indexed_kind i) rest) → Source all key)
      → Memᴰ key (requests (indexed_kind i) (if kept then p ∷ rest else rest))
      → Source (p ∷ all) key
  unfolding requests Source
  kept-Source p all rest key true held from_rest (Memᴰ.head e) = (p, Memᴰ.head refl, held, e)
  kept-Source p all rest key true held from_rest (Memᴰ.tail found) =
      further-Source p all key (from_rest found)
  kept-Source p all rest key false other from_rest found =
      further-Source p all key (from_rest found)

  requests-Source :
      (all : List (Object (indexed_kind i))) (key : Key)
      → Memᴰ key (requests (indexed_kind i) (listed i name namespace all))
      → Source all key
  unfolding listed requests
  requests-Source [] key found = elim found [ ]
  requests-Source (p ∷ all) key found =
      kept-Source p all (listed i name namespace all) key (is_listed i name namespace p) refl
        (requests-Source all key) found

-- The kind whose changes a reference of the index is watched for.
abbrev pub changed_kind : Index → Kind
changed_kind notebook_model = model
changed_kind notebook_dataset = dataset
changed_kind model_model = model
changed_kind model_dataset = dataset
changed_kind server_model = model

-- What the controllers register for those changes.
abbrev pub woken_by : (i : Index) → Object (changed_kind i) → Program (List Key)
woken_by notebook_model m = find_notebooks_for_model m
woken_by notebook_dataset d = find_notebooks_for_dataset d
woken_by model_model m = find_models_for_base_model m
woken_by model_dataset d = find_models_for_dataset d
woken_by server_model m = find_servers_for_model m

-- The API server answers a list by any index with the objects of the namespace that have the value.
abbrev pub ListsBy : Env → History → ((k : Kind) → List (Object k)) → Type 0
ListsBy e h store =
    (i : Index) (name namespace : String)
    → e h (list (indexed_kind i) (field i) name namespace)
      ≡ ok (listed i name namespace (store (indexed_kind i)))

-- The requests are for the objects that refer to the name in the namespace, and for no other.
abbrev pub Wakes :
    (i : Index) → String → String → List (Object (indexed_kind i)) → Outcome (List Key) → Type 0
Wakes i name namespace all outcome =
    (woken : List Key) × (outcome ≡ finished woken)
    × ((o : Object (indexed_kind i))
        → Memᴰ o all
        → Refers i name namespace o
        → Memᴰ (key_of (metadata (indexed_kind i) o)) woken)
    × ((key : Key)
        → Memᴰ key woken
        → (o : Object (indexed_kind i)) × Memᴰ o all
          × Refers i name namespace o
          × (key ≡ key_of (metadata (indexed_kind i) o)))

find-Wakes :
    (i : Index) (name namespace : String) (all : List (Object (indexed_kind i))) (e : Env)
    (h : History)
    → e h (list (indexed_kind i) (field i) name namespace) ≡ ok (listed i name namespace all)
    → Wakes i name namespace all (run e h (find i name namespace)).1
unfolding find requests_for run Source
find-Wakes i name namespace all e h answer = (
  requests (indexed_kind i) (listed i name namespace all),
  ap (λ r. r.1)
      (run-step e h {c = list (indexed_kind i) (field i) name namespace}
        (requests_for (indexed_kind i)) {a = ok (listed i name namespace all)} answer),
  (λ o found refers.
      listed-Mem i name namespace o all found (Refers-is_listed i name namespace o refers)),
  (λ key found.
      let (o, there, held, same) = requests-Source i name namespace all key found in
      (o, there, is_listed-Refers i name namespace o held, same)),
)

-- A change of a Model wakes the Notebooks, Models and Servers, and a change of a Dataset the Notebooks
-- and Models, of its namespace whose spec refers to it by name, each by the function that its
-- controller registers, and no other object of that kind, if the API server answers a list by an index
-- with the objects of the namespace that have the value.
pub woken_by-Wakes :
    (i : Index) (changed : Object (changed_kind i)) (store : (k : Kind) → List (Object k)) (e : Env)
    (h : History)
    → ListsBy e h store
    → let m = metadata (changed_kind i) changed in
      Wakes i m.name m.namespace (store (indexed_kind i)) (run e h (woken_by i changed)).1
unfolding find_notebooks_for_model find_notebooks_for_dataset find_models_for_base_model
    find_models_for_dataset find_servers_for_model
woken_by-Wakes notebook_model o store e h lists =
    find-Wakes notebook_model o.metadata.name o.metadata.namespace _ e h
      (lists notebook_model o.metadata.name o.metadata.namespace)
woken_by-Wakes notebook_dataset o store e h lists =
    find-Wakes notebook_dataset o.metadata.name o.metadata.namespace _ e h
      (lists notebook_dataset o.metadata.name o.metadata.namespace)
woken_by-Wakes model_model o store e h lists =
    find-Wakes model_model o.metadata.name o.metadata.namespace _ e h
      (lists model_model o.metadata.name o.metadata.namespace)
woken_by-Wakes model_dataset o store e h lists =
    find-Wakes model_dataset o.metadata.name o.metadata.namespace _ e h
      (lists model_dataset o.metadata.name o.metadata.namespace)
woken_by-Wakes server_model o store e h lists =
    find-Wakes server_model o.metadata.name o.metadata.namespace _ e h
      (lists server_model o.metadata.name o.metadata.namespace)
