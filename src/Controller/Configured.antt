-- ===== src/Controller/Configured.antt =====
-- The ConfigMap of parameters.
use runbooks.Prelude.{String, ◌≡◌, sym, ap, ◌∙◌, ◌==◌, some, [], ◌∷◌, if◌then◌else◌}
use runbooks.Prelude.Dict.{Dict, lookup, lookup-insert}
use runbooks.Kube.{ConfigMap, IntOrString}
use runbooks.Program.{Go, ok, err, panic}
use runbooks.Program.Fallible.{>>=-parts, wrap}
use runbooks.Library.{Library, Reference, referenced, already_owned, reference_error}
use runbooks.Api.{Kind, Object, get_params}
use runbooks.Controller.Params.{
  params_contents, put_contents, referenced_params, owner_of, configure_params,
}

contents_of : Dict String → Go ConfigMap → Dict String
contents_of other (ok cm) = cm.contents
contents_of other (err e) = other
contents_of other (panic s) = other

referenced_params-contents :
    (cm configured : ConfigMap) (contents : Dict String) (r : Reference)
    → referenced_params cm contents r ≡ ok configured
    → configured.contents ≡ contents
unfolding referenced_params contents_of
referenced_params-contents cm configured contents (referenced m) made =
    ap (contents_of contents) (sym made)
referenced_params-contents cm configured contents already_owned made =
    ap (contents_of contents) (sym made)
referenced_params-contents cm configured contents (reference_error e) made = cc

-- The text is the JSON of the parameters, an empty object where there are none.
abbrev pub Marshalled : Library → Dict IntOrString → String → Type 0
Marshalled L [] text = text ≡ "{}"
Marshalled L (p ∷ ps) text = L.marshal_params (p ∷ ps) ≡ ok text

text_of : Go String → String
text_of (ok s) = s
text_of (err e) = e
text_of (panic e) = e

wrapped : (what text : String) (g : Go String) → wrap what g ≡ ok text → g ≡ ok text
unfolding text_of
wrapped what text (ok s) made = ap (λ g. ok (text_of g)) made
wrapped what text (err e) made = cc
wrapped what text (panic e) made = cc

params_contents-Marshalled :
    (L : Library) (ps : Dict IntOrString) (text : String)
    → params_contents L ps ≡ ok text
    → Marshalled L ps text
unfolding params_contents text_of
params_contents-Marshalled L [] text made = sym (ap text_of made)
params_contents-Marshalled L (p ∷ ps) text made = wrapped _ text (L.marshal_params (p ∷ ps)) made

-- If configuring a ConfigMap succeeds, its entry params.json is the JSON of the object's parameters, or
-- an empty JSON object where it has none, and every other entry is kept.
pub configure_params-Marshalled :
    (L : Library) (k : Kind) (o : Object k) (cm configured : ConfigMap)
    → configure_params L k o cm ≡ ok configured
    → (text : String) × Marshalled L (get_params k o) text
      × ((j : String)
          → lookup j configured.contents
            ≡ (if "params.json" == j then some text else lookup j cm.contents))
unfolding configure_params put_contents
configure_params-Marshalled L k o cm configured succeeded =
    let (text, marshalled, made) =
      >>=-parts (params_contents L (get_params k o)) (put_contents L (owner_of k o) cm) configured
        succeeded in
    (
      text,
      params_contents-Marshalled L (get_params k o) text marshalled,
      λ j.
          ap (lookup j) (referenced_params-contents cm configured _ _ made)
          ∙ lookup-insert "params.json" j text cm.contents,
    )
