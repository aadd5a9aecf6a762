-- ===== src/Labels/Tests.antt =====
-- Labels at concrete maps and texts.
use onepanel.Base.{String, ◌≡◌, refl, none, [], ◌∷◌, Map, join}
use onepanel.Labels.{Label, labels_from_string}
use onepanel.Labels.Format.{IsPlain, labels_from_string-print_labels}

abbrev tags : Map String
tags = ("tags.onepanel.io/env", "prod") ∷ ("app", "box") ∷ []

abbrev label : Label
label = record { key = "env"; value = "prod" }

labels_from_string-print_labels_example :
    labels_from_string "key=env,value=prod" ≡ (label ∷ [], none)
unfolding join
labels_from_string-print_labels_example =
    labels_from_string-print_labels label [] ((key, value), tt)
  where
    key : IsPlain label.key
    key = ((refl, (refl, (refl, tt))), (refl, (refl, (refl, tt))), (refl, (refl, (refl, tt))))

    value : IsPlain label.value
    value = (
      (refl, (refl, (refl, (refl, tt)))),
      (refl, (refl, (refl, (refl, tt)))),
      (refl, (refl, (refl, (refl, tt)))),
    )
