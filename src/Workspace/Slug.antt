-- ===== src/Workspace/Slug.antt =====
-- The characters and the length of a generated uid.
use Prim.Native.Char.{Char, code}
use Prim.Native.String.{len}
use text.Mathlib.TextLemmas.{append_assoc, cons-append, nil-append}
use onepanel.Base.{
  ap, sym, ◌∙◌, ◌⊕◌, ◌∷◌, split, split-first, Lacks-append, ◌≤◌, String, Bool, true, false, ◌≡◌,
  refl, arith, nat_eq, ltb, to_lower, Lacks, to_lower-Lacks, ok, Bool-cases, inl, inr,
}
use onepanel.Workspace.Update.{host_of}
use onepanel.Workspace.Uid.{is_kept, replace_runs, generate_uid, generate_workspace_uid}

-- the character is no dot
abbrev NotDot : Char → Type 0
NotDot c = nat_eq (code c) (code ".") ≡ false

kept-NotDot : (c : Char) → is_kept c ≡ true → NotDot c
unfolding is_kept
kept-NotDot c h = ground (arith, h)

Lacks-replace_runs : (inside : Bool) (s : String) → Lacks "." (replace_runs inside s)
unfolding replace_runs
Lacks-replace_runs inside String.[] = tt
Lacks-replace_runs inside (String.◌∷◌ c s) = elim (Bool-cases (is_kept c)) [
  | inl e ↦ rw (e, replace_runs) (kept-NotDot c e, Lacks-replace_runs false s)
  | inr e ↦
      rw (e, replace_runs)
        (elim (Bool-cases inside) [
          | inl i ↦ rw i (Lacks-replace_runs true s)
          | inr i ↦ rw i (refl, Lacks-replace_runs true s)
        ])
]

uid-Lacks :
    (name uid : String) → generate_workspace_uid name ≡ ok uid → (len uid ≤ 30) × Lacks "." uid
unfolding generate_workspace_uid generate_uid
uid-Lacks name uid e =
    let made = to_lower (replace_runs false name) in
    elim (Bool-cases (ltb 30 (len made))) [
      | inl c ↦ absurd (ground arith)
      | inr c ↦
          let same : made ≡ uid = ground arith in
          rw (← same) (
            ground (arith, c),
            to_lower-Lacks "." (replace_runs false name) letters (Lacks-replace_runs false name),
          )
    ]
  where
    letters : Lacks "." "abcdefghijklmnopqrstuvwxyz"
    letters = ground arith

-- the parts of the host of a workspace at its dots
pub split-host_of :
    (uid namespace domain : String)
    → Lacks "." uid
    → Lacks "." namespace
    → split "." (host_of uid namespace domain) ≡ (uid ⊕ ("--" ⊕ namespace)) ∷ split "." domain
split-host_of uid namespace domain h k =
    ap (split ".") regroup
    ∙ split-first "." (uid ⊕ ("--" ⊕ namespace)) domain (
        Lacks-append "." uid ("--" ⊕ namespace) h
          (Lacks-append "." "--" namespace (refl, (refl, tt)) k))
  where
    dot : "." ⊕ domain ≡ String.◌∷◌ "." domain
    dot = cons-append "." String.[] domain ∙ ap (String.◌∷◌ ".") (nil-append domain)

    regroup : host_of uid namespace domain ≡ (uid ⊕ ("--" ⊕ namespace)) ⊕ String.◌∷◌ "." domain
    regroup =
        ap (λ s. uid ⊕ ("--" ⊕ (namespace ⊕ s))) dot
        ∙ ap (λ s. uid ⊕ s) (sym (append_assoc "--" namespace (String.◌∷◌ "." domain)))
        ∙ sym (append_assoc uid ("--" ⊕ namespace) (String.◌∷◌ "." domain))

-- The uid that a workspace is given has at most 30 bytes and no dot; with a namespace that has no dot
-- either, the host of the workspace, split at its dots, is the uid, two dashes and the namespace, and then
-- the parts of the domain.
pub generate_workspace_uid-Lacks :
    (name uid namespace domain : String)
    → generate_workspace_uid name ≡ ok uid
    → Lacks "." namespace
    → (len uid ≤ 30)
      × Lacks "." uid
      × (split "." (host_of uid namespace domain) ≡ (uid ⊕ "--" ⊕ namespace) ∷ split "." domain)
generate_workspace_uid-Lacks name uid namespace domain e k =
    let (short, lacks) = uid-Lacks name uid e in
    (short, lacks, split-host_of uid namespace domain lacks k)
