-- ===== src/Forge/Dependencies/Tests.antt =====
-- The dependencies of a small contract (forge/parser/dependencies.py).
use specora_core.Prelude.{String, ◌≡◌, refl, true, some, List, [], ◌∷◌, mem, inl}
use specora_core.Json.{str, arr, obj, nil, cons, Fields, end, field, get, get_or}
use specora_core.Forge.Dependencies.{is_fqn, merge_dependencies}
use specora_core.Forge.Dependencies.Edges.{
  IsEdgeList, FieldReferences, merge_dependencies-IsEdgeList, merge_dependencies-reference,
}

-- An incident that requires a mixin, a text that is no name, and the mixin again, and whose only
-- field references an asset.
abbrev definitions : Fields
definitions =
    field "asset_id"
      (obj (field "references" (obj (field "entity" (str "entity/it/asset") end)) end)) end

abbrev specification : Fields
specification = field "fields" (obj definitions) end

abbrev incident : Fields
incident = field "kind" (str "Entity") (
    field "requires"
      (arr
        (cons (str "mixin/it/audited") (cons (str "audited") (cons (str "mixin/it/audited") nil))))
      (field "spec" (obj specification) end))

abbrev found : List String
found = "mixin/it/audited" ∷ "entity/it/asset" ∷ []

incident_found : merge_dependencies incident ≡ some found
unfolding merge_dependencies get_or get is_fqn mem
incident_found = refl

merge_dependencies-IsEdgeList_example : IsEdgeList found
merge_dependencies-IsEdgeList_example = merge_dependencies-IsEdgeList incident found incident_found

asset_is_fqn : is_fqn "entity/it/asset" ≡ true
unfolding is_fqn
asset_is_fqn = refl

asset_referenced : FieldReferences definitions "entity/it/asset"
unfolding get get_or
asset_referenced = inl refl

merge_dependencies-reference_example : mem "entity/it/asset" found ≡ true
unfolding get
merge_dependencies-reference_example =
    merge_dependencies-reference incident specification definitions "entity/it/asset" found
      asset_is_fqn refl refl refl asset_referenced incident_found
