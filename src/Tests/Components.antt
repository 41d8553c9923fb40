-- ===== src/Tests/Components.antt =====
-- The theorems on groups and labels of metrics, applied to concrete data.
use hotshot_query_service.Prelude.{zero, suc, none, [], ◌∷◌, ◌++◌, ok, ◌≡◌, refl, arith}
use hotshot_query_service.Metrics.{
  Store, Group, subgroup, get_subgroup, namespace_of, empty_group, child_of,
}
use hotshot_query_service.Metrics.Groups.{IsValid, subgroup-IsValid}
use hotshot_query_service.Metrics.Labels.{
  create_label, get_label, get_label-create_label, NoneEmpty,
}
use hotshot_query_service.Metrics.Names.{AllPlain}
use hotshot_query_service.Tests.{plain_metrics}

abbrev root : Group
root = empty_group []

abbrev metrics : Store plain_metrics
metrics = record {
  registry = tt;
  labels = λ _. none;
  groups = root ∷ [];
  values = [];
  samples = [];
  label_values = [];
}

metrics-IsValid : IsValid metrics
unfolding IsValid child_of empty_group
metrics-IsValid zero name child e = absurd (ground (arith, e))
metrics-IsValid (suc id) name child e = absurd (ground (arith, e))

-- The group `a`.
abbrev grown : Store plain_metrics
grown = (subgroup metrics 0 root (97 ∷ [])).0

subgroup-IsValid_example :
    IsValid grown
    × (get_subgroup grown 0 ((97 ∷ []) ∷ []) ≡ ok (subgroup metrics 0 root (97 ∷ [])).1)
    × (namespace_of grown (subgroup metrics 0 root (97 ∷ [])).1
        ≡ root.namespace ++ ((97 ∷ []) ∷ []))
subgroup-IsValid_example = subgroup-IsValid metrics 0 root refl (97 ∷ []) metrics-IsValid

-- The group `a` in the group `b`.
abbrev inner : Group
inner = empty_group ((98 ∷ []) ∷ (97 ∷ []) ∷ [])

get_label-create_label_example :
    get_label (create_label metrics inner (99 ∷ [])).0 inner (99 ∷ [])
    ≡ ok (create_label metrics inner (99 ∷ [])).1
unfolding AllPlain NoneEmpty empty_group
get_label-create_label_example =
    get_label-create_label metrics inner (99 ∷ []) ((refl, tt), ((refl, tt), tt))
      ((λ e. absurd (ground (arith, e))), ((λ e. absurd (ground (arith, e))), tt))
