-- ===== src/Mapping/Tests.antt =====
-- Runs of the pruning and of the repetition.
use onepanel.Base.{◌≡◌, refl}
use onepanel.Mapping.Prune.{AreFilled, delete_empty_values_mapping-AreFilled}
use onepanel.Mapping.{
  cons, nil, seq, Fields, text, number, mapping, end, field, delete_empty_values_mapping,
  repeat_symbol, remove_blanks,
}

prune_runs :
    delete_empty_values_mapping
      (field "a" (text "") (field "b" (mapping end) (field "c" (number 0) end)))
    ≡ field "c" (number 0) end
unfolding delete_empty_values_mapping
prune_runs = refl

remove_runs :
    remove_blanks
      (mapping (field "a" (mapping (field "b" (text "") end)) (field "c" (number 0) end)))
    ≡ mapping (field "a" (mapping end) end)
unfolding remove_blanks
remove_runs = refl

repeat_runs : repeat_symbol 3 "?" "," ≡ "?,?,?"
unfolding repeat_symbol
repeat_runs = refl

abbrev nested : Fields
nested =
    field "a" (seq (cons (mapping (field "b" (text "") (field "c" (text "x") end))) nil))
      (field "d" (text "") end)

delete_empty_values_mapping-AreFilled_example : AreFilled (delete_empty_values_mapping nested)
delete_empty_values_mapping-AreFilled_example = delete_empty_values_mapping-AreFilled nested
