-- ===== src/Cloud/Hashes.antt =====
-- The text whose hash names an object's artifacts, `objectHashInput` of internal/cloud/common.go.
use Prim.Native.Char.{Char, code}
use text.Mathlib.TextLemmas.{
  nil-append, cons-append, append_cancel_left, append_cancel_right, head-eq_of_cons-eq,
  tail-eq_of_cons-eq,
}
use runbooks.Prelude.{
  String, ◌≡◌, refl, sym, ap, ◌∙◌, ◌<>◌, ◌==◌, if◌then◌else◌, Bool, true, false, eqb,
}
use runbooks.Prelude.Text.{to_lower}
use runbooks.Program.{Go, ok, panic}
use runbooks.Api.{Kind, Object, metadata, kind_name}
use runbooks.Cloud.{hash_input, object_hash_input}

abbrev pub slash : Char
slash = "/"

-- The text has no slash.
unfoldable pub no_slash : String → Bool
no_slash String.[] = true
no_slash (String.◌∷◌ c s) = if eqb (code c) b'/' then false else no_slash s

rest_no_slash :
    (found rest : Bool) → (if found then false else rest) ≡ true → (found ≡ false) × (rest ≡ true)
rest_no_slash true rest clear = cc
rest_no_slash false rest clear = (refl, clear)

pub slash_append : (b : String) → "/" <> b ≡ String.◌∷◌ slash b
slash_append b = cons-append slash "" b ∙ ap (λ s. String.◌∷◌ slash s) (nil-append b)

-- A text that has no slash and a character that is one do not begin alike.
begins_apart :
    (x : Char) (c b d : String)
    → no_slash (String.◌∷◌ x c) ≡ true
    → String.◌∷◌ slash b ≡ String.◌∷◌ x d
    → ⊥
unfolding no_slash
begins_apart x c b d clear same =
    let (other, rest) = rest_no_slash (eqb (code x) b'/') (no_slash c) clear in
    let begins : (eqb b'/' b'/' ≡ eqb (code x) b'/') =
      ap (λ y. eqb (code y) b'/') (head-eq_of_cons-eq same) in
    cc

-- Texts that are the same are the same before their first slash, and after it.
at_first_slash :
    (a c b d : String)
    → no_slash a ≡ true
    → no_slash c ≡ true
    → a <> String.◌∷◌ slash b ≡ c <> String.◌∷◌ slash d
    → (a ≡ c) × (b ≡ d)
unfolding no_slash
at_first_slash String.[] String.[] b d clear_a clear_c same =
    (refl, tail-eq_of_cons-eq (sym (nil-append _) ∙ same ∙ nil-append _))
at_first_slash String.[] (String.◌∷◌ x c) b d clear_a clear_c same =
    absurd (begins_apart x c b _ clear_c (sym (nil-append _) ∙ same ∙ cons-append x c _))
at_first_slash (String.◌∷◌ x a) String.[] b d clear_a clear_c same =
    absurd (begins_apart x a d _ clear_a (sym (nil-append _) ∙ sym same ∙ cons-append x a _))
at_first_slash (String.◌∷◌ x a) (String.◌∷◌ y c) b d clear_a clear_c same =
    let (other_a, rest_a) = rest_no_slash (eqb (code x) b'/') (no_slash a) clear_a in
    let (other_c, rest_c) = rest_no_slash (eqb (code y) b'/') (no_slash c) clear_c in
    let both = sym (cons-append x a _) ∙ same ∙ cons-append y c _ in
    let (before, behind) = at_first_slash a c b d rest_a rest_c (tail-eq_of_cons-eq both) in
    let heads = head-eq_of_cons-eq both in (cc, behind)

slashed :
    (a c b d : String)
    → a <> ("/" <> b) ≡ c <> ("/" <> d)
    → a <> String.◌∷◌ slash b ≡ c <> String.◌∷◌ slash d
slashed a c b d same =
    ap (λ s. a <> s) (sym (slash_append b)) ∙ same ∙ ap (λ s. c <> s) (slash_append d)

hash_input-parts :
    (cluster sort other namespace space name named : String)
    → no_slash namespace ≡ true
    → no_slash space ≡ true
    → no_slash (to_lower sort <> "s") ≡ true
    → no_slash (to_lower other <> "s") ≡ true
    → hash_input cluster sort namespace name ≡ hash_input cluster other space named
    → (to_lower sort ≡ to_lower other) × (namespace ≡ space) × (name ≡ named)
unfolding hash_input
hash_input-parts cluster sort other namespace space name named clear clear' clear_sort clear_other
      same =
    let in_cluster =
      append_cancel_left "/namespaces/" _ _
        (append_cancel_left cluster _ _ (append_cancel_left "clusters/" _ _ same)) in
    let (spaces, further) =
      at_first_slash namespace space _ _ clear clear' (slashed namespace space _ _ in_cluster) in
    let (sorts, names) =
      at_first_slash (to_lower sort <> "s") (to_lower other <> "s") name named clear_sort
        clear_other (slashed (to_lower sort <> "s") (to_lower other <> "s") name named further) in
    (append_cancel_right (to_lower sort) (to_lower other) "s" sorts, spaces, names)

-- The kind and the namespace of the object have no slash.
abbrev pub Clear : (k : Kind) → Object k → Type 0
Clear k o =
    (no_slash (metadata k o).namespace ≡ true) × (no_slash (to_lower (kind_name k o) <> "s") ≡ true)

input_from :
    (unnamed : Bool) (text input : String)
    → ◌≡◌ {A = Go String} (if unnamed then panic "kind is empty" else ok text) (ok input)
    → text ≡ input
input_from true text input found = cc
input_from false text input found = cc

input_of :
    (cluster : String) (k : Kind) (o : Object k) (input : String)
    → object_hash_input cluster k o ≡ ok input
    → hash_input cluster (kind_name k o) (metadata k o).namespace (metadata k o).name ≡ input
unfolding object_hash_input
input_of cluster k o input found = input_from (kind_name k o == "") _ input found

-- Two objects of one cluster whose artifacts are named by the hash of the same text have the same
-- kind, up to case, the same namespace and the same name, if no kind and no namespace has a slash.
pub same_hash_input :
    (cluster : String) (k l : Kind) (o : Object k) (p : Object l) (input : String)
    → Clear k o
    → Clear l p
    → object_hash_input cluster k o ≡ ok input
    → object_hash_input cluster l p ≡ ok input
    → (to_lower (kind_name k o) ≡ to_lower (kind_name l p))
      × ((metadata k o).namespace ≡ (metadata l p).namespace)
      × ((metadata k o).name ≡ (metadata l p).name)
same_hash_input cluster k l o p input (clear_o, sort_o) (clear_p, sort_p) of_o of_p =
    hash_input-parts cluster _ _ _ _ _ _ clear_o clear_p sort_o sort_p
      (input_of cluster k o input of_o ∙ sym (input_of cluster l p input of_p))
