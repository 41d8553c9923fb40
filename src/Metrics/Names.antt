-- ===== src/Metrics/Names.antt =====
-- Names of metrics as lists of characters: `split('_')`, `join("_")`.
use hotshot_query_service.Prelude.{
  ℕ, ℕ_discrete, Option, none, some, List, [], ◌∷◌, ◌++◌, false, if◌then◌else◌, ◌==◌, ◌≡◌, refl, ap,
  ◌∙◌,
}
use mathlib.Core.List.{List-discrete}

abbrev pub Name : Type 0
Name = List ℕ

abbrev pub Name_discrete : Discrete Name
Name_discrete = List-discrete ℕ_discrete

abbrev pub Names_discrete : Discrete (List Name)
Names_discrete = List-discrete Name_discrete

-- `unwrap_or_else`
abbrev pub unwrap_name : Option Name → Name → Name
unwrap_name none other = other
unwrap_name (some name) other = name

-- The character `_`.
abbrev pub underscore : ℕ
underscore = 95

-- `Itertools::join("_")`
unfoldable pub join : List Name → Name
join [] = []
join (x ∷ []) = x
join (x ∷ y ∷ ys) = x ++ (underscore ∷ join (y ∷ ys))

-- A character before the first part.
abbrev pub add_char : ℕ → List Name → List Name
add_char c [] = (c ∷ []) ∷ []
add_char c (part ∷ parts) = (c ∷ part) ∷ parts

-- `str::split('_')`: the parts between the underscores, at least one.
unfoldable pub split : Name → List Name
split [] = [] ∷ []
split (c ∷ cs) = let rest = split cs in if c == underscore then [] ∷ rest else add_char c rest

-- No character is an underscore.
unfoldable pub IsPlain : Name → Type 0
IsPlain [] = Unit
IsPlain (c ∷ cs) = ((c == underscore) ≡ false) × IsPlain cs

split-plain : (x : Name) → IsPlain x → split x ≡ x ∷ []
unfolding split IsPlain
split-plain [] p = refl
split-plain (c ∷ cs) (n, p) = rw (n, split-plain cs p) refl

split-underscore : (x rest : Name) → IsPlain x → split (x ++ (underscore ∷ rest)) ≡ x ∷ split rest
unfolding split IsPlain
split-underscore [] rest p = refl
split-underscore (c ∷ cs) rest (n, p) = rw (n, split-underscore cs rest p) refl

unfoldable pub AllPlain : List Name → Type 0
unfolding IsPlain
AllPlain [] = Unit
AllPlain (x ∷ xs) = IsPlain x × AllPlain xs

-- Splitting gives back the parts that were joined, if none of them has an underscore.
pub split-join : (x : Name) (xs : List Name) → AllPlain (x ∷ xs) → split (join (x ∷ xs)) ≡ x ∷ xs
unfolding join AllPlain
split-join x [] (p, a) = split-plain x p
split-join x (y ∷ ys) (p, a) =
    split-underscore x (join (y ∷ ys)) p ∙ ap (λ l. x ∷ l) (split-join y ys a)
