-- ===== src/Labels/Format.antt =====
-- The text of labels in a request, and what is read from it.
use Prim.Native.Char.{Char, code}
use mathlib.Core.List.{append-nil, append_assoc}
use onepanel.Base.{
  String, false, ◌≡◌, ◌≢◌, refl, ap, ◌∙◌, none, List, [], ◌∷◌, ◌++◌, map, arith, eq_iff, ◌==◌, ok,
  split, join, nat_eq, Lacks, split-join, Lacks-join, All,
}
use onepanel.Labels.{
  Label, label_from_string, labels_from_string, labels_of_parts, read_item, item_of, label_of_parts,
  set_item, blank,
}

-- key=<key>,value=<value>
abbrev pub print_label : Label → String
print_label l = join "," (join "=" ("key" ∷ l.key ∷ []) ∷ join "=" ("value" ∷ l.value ∷ []) ∷ [])

-- the labels of a filter, with `&` between them
abbrev pub print_labels : List Label → String
print_labels ls = join "&" (map print_label ls)

-- none of the three separators stands in the text
abbrev pub IsPlain : String → Type 0
IsPlain s = Lacks "," s × Lacks "=" s × Lacks "&" s

abbrev pub IsPlainLabel : Label → Type 0
IsPlainLabel l = IsPlain l.key × IsPlain l.value

read_item-join :
    (name text : String) (l : Label)
    → Lacks "=" name
    → Lacks "=" text
    → read_item (join "=" (name ∷ text ∷ [])) l ≡ ok (set_item name text l)
read_item-join name text l h k =
    unfold read_item item_of in rw (split-join "=" name (text ∷ []) (h, (k, tt)))

plain-part :
    (c : Char) (name text : String)
    → nat_eq (code "=") (code c) ≡ false
    → Lacks c name
    → Lacks c text
    → Lacks c (join "=" (name ∷ text ∷ []))
plain-part c name text e h k = Lacks-join c "=" (name ∷ text ∷ []) e (h, (k, tt))

label_from_string-print_label :
    (l : Label) → IsPlainLabel l → label_from_string (print_label l) ≡ ok l
label_from_string-print_label l h =
    unfold label_from_string label_of_parts in
    rw
      (split-join "," (join "=" ("key" ∷ l.key ∷ [])) (join "=" ("value" ∷ l.value ∷ []) ∷ []) (
        plain-part "," "key" l.key refl (refl, (refl, (refl, tt))) h.0.0,
        (plain-part "," "value" l.value refl (refl, (refl, (refl, (refl, (refl, tt))))) h.1.0, tt),
      ))
      (rw (read_item-join "key" l.key blank (refl, (refl, (refl, tt))) h.0.1) (
        rw
          (read_item-join "value" l.value (set_item "key" l.key blank)
            (refl, (refl, (refl, (refl, (refl, tt))))) h.1.1)
          (unfold set_item in refl)))

print_label-ne-empty : (l : Label) → IsPlainLabel l → print_label l ≢ ""
print_label-ne-empty l h e =
    let read : label_from_string "" ≡ ok l = rw e at (label_from_string-print_label l h) in
    absurd (unfold label_from_string label_of_parts split in cc (read))

Lacks-print_label : (l : Label) → IsPlainLabel l → Lacks "&" (print_label l)
Lacks-print_label l h =
    Lacks-join "&" "," (join "=" ("key" ∷ l.key ∷ []) ∷ join "=" ("value" ∷ l.value ∷ []) ∷ []) refl
      (
        plain-part "&" "key" l.key refl (refl, (refl, (refl, tt))) h.0.2,
        (plain-part "&" "value" l.value refl (refl, (refl, (refl, (refl, (refl, tt))))) h.1.2, tt),
      )

not-eq : {s t : String} → s ≢ t → (s == t) ≡ false
not-eq {s} {t} h = ground (arith, eq_iff s t)

labels_of_parts-read :
    (done : List Label) (part : String) (ps : List String) (l : Label)
    → (part == "") ≡ false
    → label_from_string part ≡ ok l
    → labels_of_parts done (part ∷ ps) ≡ labels_of_parts (done ++ l ∷ []) ps
unfolding labels_of_parts
labels_of_parts-read done part ps l h k = ground arith

labels_of_parts-print_label :
    (done ls : List Label)
    → All IsPlainLabel ls
    → labels_of_parts done (map print_label ls) ≡ (done ++ ls, none)
unfolding labels_of_parts
labels_of_parts-print_label done [] h = rw append-nil
labels_of_parts-print_label done (l ∷ ls) h =
    labels_of_parts-read done (print_label l) (map print_label ls) l
      (not-eq (print_label-ne-empty l h.0)) (label_from_string-print_label l h.0)
    ∙ (labels_of_parts-print_label (done ++ l ∷ []) ls h.1
        ∙ ap (λ xs. (xs, none)) (append_assoc done (l ∷ []) ls))

Lacks-prints : (ls : List Label) → All IsPlainLabel ls → All (Lacks "&") (map print_label ls)
Lacks-prints [] h = tt
Lacks-prints (l ∷ ls) h = (Lacks-print_label l h.0, Lacks-prints ls h.1)

prints-ne-empty :
    (l : Label) (ls : List Label) → All IsPlainLabel (l ∷ ls) → print_labels (l ∷ ls) ≢ ""
prints-ne-empty l ls h e = print_label-ne-empty l h.0 (
    cc (
      split-join "&" (print_label l) (map print_label ls) (Lacks-prints (l ∷ ls) h),
      ap (split "&") e,
      split_empty,
    ))
  where
    split_empty : split "&" "" ≡ "" ∷ []
    split_empty = unfold split in refl

-- Labels of which no key and no value has a comma, an equals sign or an ampersand are read back from
-- their text, in their order, and no error is found.
pub labels_from_string-print_labels :
    (l : Label) (ls : List Label)
    → All IsPlainLabel (l ∷ ls)
    → labels_from_string (print_labels (l ∷ ls)) ≡ (l ∷ ls, none)
labels_from_string-print_labels l ls h =
    unfold labels_from_string in
    rw (not-eq (prints-ne-empty l ls h)) (
      rw (split-join "&" (print_label l) (map print_label ls) (Lacks-prints (l ∷ ls) h))
        (labels_of_parts-print_label [] (l ∷ ls) h))
