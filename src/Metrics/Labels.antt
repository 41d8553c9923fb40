-- ===== src/Metrics/Labels.antt =====
-- Labels: they are registered by their full name, which `Label::new` takes apart at underscores.
use hotshot_query_service.Prelude.{
  ◌⊎◌, inl, inr, subst, ℕ, Option, none, some, List, [], ◌∷◌, ◌++◌, length, Result, ok, err, ◌≡◌,
  ◌≢◌, refl, sym, ap, ap₂, set, get_elem?, inl, inr, subst,
}
use hotshot_query_service.Metrics.{
  Prometheus, Store, Group, Opts, MetricsError, no_such_metric, metric_opts,
}
use hotshot_query_service.FileSystem.Index.{insert_key}
use hotshot_query_service.Metrics.Names.{Name, Names_discrete, split, join, AllPlain, split-join}
use mathlib.Core.Logic.{if_pos}

-- The parts of a name that is not empty.
unfoldable pub parts_of : Name → List Name
parts_of [] = []
parts_of (c ∷ cs) = split (c ∷ cs)

unfoldable pub fq_name : Opts → List Name
unfolding parts_of
fq_name opts = parts_of opts.namespace ++ parts_of opts.subsystem ++ (opts.name ∷ [])

unfoldable pub new_label : {P : Prometheus} → Store P → Opts → Store P × ℕ
unfolding fq_name insert_key
new_label s opts =
    let label = length s.label_values in
    (
      record s {
        labels = insert_key Names_discrete (fq_name opts) label s.labels;
        label_values = s.label_values ++ ([] ∷ []);
      },
      label,
    )

unfoldable pub create_label : {P : Prometheus} → Store P → Group → Name → Store P × ℕ
unfolding new_label metric_opts
create_label s self name = new_label s (metric_opts self name none)

unfoldable pub get_label : {P : Prometheus} → Store P → Group → Name → Result MetricsError ℕ
get_label s self name = elim (s.labels (self.namespace ++ (name ∷ []))) [
  | some label ↦ ok label
  | none ↦ err (no_such_metric self.namespace name)
]

-- `Label::set` and `Label::get`
unfoldable pub label_set : {P : Prometheus} → Store P → ℕ → Name → Store P
label_set s label value = record s { label_values = set s.label_values label value }

unfoldable pub label_get : {P : Prometheus} → Store P → ℕ → Option Name
label_get s label = get_elem? s.label_values label

unfoldable pub NoneEmpty : List Name → Type 0
NoneEmpty [] = Unit
NoneEmpty (x ∷ xs) = (x ≢ []) × NoneEmpty xs

parts_of-join :
    (x : Name) (xs : List Name) → x ≢ [] → AllPlain (x ∷ xs) → parts_of (join (x ∷ xs)) ≡ x ∷ xs
unfolding parts_of join
parts_of-join [] xs n p = absurd (n refl)
parts_of-join (c ∷ cs) [] n p = split-join (c ∷ cs) [] p
parts_of-join (c ∷ cs) (y ∷ ys) n p = split-join (c ∷ cs) (y ∷ ys) p

parts_cases : (ns : List Name) → (ns ≡ []) ⊎ ((x : Name) × (xs : List Name) × (ns ≡ x ∷ xs))
parts_cases [] = inl refl
parts_cases (x ∷ xs) = inr (x, xs, refl)

fq_name-metric_opts :
    (self : Group) (name : Name)
    → AllPlain self.namespace
    → NoneEmpty self.namespace
    → fq_name (metric_opts self name none) ≡ self.namespace ++ (name ∷ [])
unfolding fq_name metric_opts parts_of join AllPlain NoneEmpty
fq_name-metric_opts self name p n = elim (parts_cases self.namespace) [
  | inl e ↦ rw (e, metric_opts, fq_name, parts_of) refl
  | inr (x, [], e) ↦
      rw (e, metric_opts, fq_name)
        (ap (λ l. l ++ [] ++ (name ∷ []))
          (parts_of-join x [] (subst NoneEmpty e n).0 (subst AllPlain e p)))
  | inr (x, y ∷ ys, e) ↦
      let q : AllPlain (x ∷ y ∷ ys) = subst AllPlain e p in
      let m : NoneEmpty (x ∷ y ∷ ys) = subst NoneEmpty e n in
      rw (e, metric_opts, fq_name)
        (ap₂ (λ l r. l ++ r ++ (name ∷ [])) (parts_of-join x [] m.0 (q.0, tt))
          (parts_of-join y ys m.1.0 q.1))
]

insert_key-found :
    (j k : List Name) (v : ℕ) (m : List Name → Option ℕ)
    → j ≡ k
    → insert_key Names_discrete k v m j ≡ some v
unfolding insert_key
insert_key-found j k v m e = if_pos (Names_discrete j k) e _ _

-- Where no part of the namespace of a group is empty or has an underscore, a label that the group
-- makes is the one that the group then finds by its name.
pub get_label-create_label :
    {P : Prometheus} (s : Store P) (self : Group) (name : Name)
    → AllPlain self.namespace
    → NoneEmpty self.namespace
    → get_label (create_label s self name).0 self name ≡ ok (create_label s self name).1
unfolding get_label create_label new_label
get_label-create_label s self name p n =
    rw
      (
        insert_key-found (self.namespace ++ (name ∷ [])) (fq_name (metric_opts self name none))
            (length s.label_values) s.labels (sym (fq_name-metric_opts self name p n)),
        get_label,
      )
      refl
