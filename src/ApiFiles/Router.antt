-- ===== src/ApiFiles/Router.antt =====
-- How `define_api` of src/availability.rs and of src/status.rs give an API its handlers: each for a route of the
-- loaded document, until one is refused.
use Prim.Native.String.{String}
use text.Mathlib.Text.{◌==◌}
use text.Mathlib.TextEquality.{eq_iff}
use text.Mathlib.TextPositions.{eq_refl}
use hotshot_query_service.Prelude.{
  ℕ, zero, suc, Option, none, some, List, [], ◌∷◌, Result, ok, ◌>>=◌, if◌then◌else◌, false,
  get_elem?, subst, refl, ◌≡◌, ◌∙◌, ap, arith,
}
use hotshot_query_service.ApiFiles.{Framework, load_base, merge_extensions, load_api}
use hotshot_query_service.ApiFiles.Toml.{Value}

-- A route answers requests, or opens a stream.
pub data Method : Type 0 where
  get stream : Method

pub record Route (H : Type 0) : Type 0 where
  pub method : Method
  pub name : String
  pub handler : H

-- `Api::with_version`, `Api::get` and `Api::stream` of tide_disco. `H` is the type of handlers.
pub record Router {L : Type 0} (F : Framework L) (H : Type 0) : Type 0 where
  pub with_version : String → F.Api → F.Api
  pub register : Method → F.Api → String → H → Result F.ApiError F.Api

-- What tide_disco documents: the routes of an API and their methods come from its document, a
-- handler is refused unless its route is there with its method, and kept if the route has no handler
-- yet.
pub record RouterLaws {L : Type 0} {F : Framework L} {H : Type 0} (R : Router F H) : Type 0 where
  pub methods : F.Api → String → Option Method
  pub handlers : F.Api → String → Option H
  pub methods-with_version :
      (version : String) (api : F.Api) → methods (R.with_version version api) ≡ methods api
  pub handlers-with_version :
      (version : String) (api : F.Api) → handlers (R.with_version version api) ≡ handlers api
  pub none_yet :
      (doc : Value L) {api : F.Api}
      → F.new_api doc ≡ ok api
      → (name : String) → handlers api name ≡ none
  pub registered :
      (api : F.Api) (r : Route H)
      → methods api r.name ≡ some r.method
      → handlers api r.name ≡ none
      → (api' : F.Api) × (R.register r.method api r.name r.handler ≡ ok api')
        × (methods api' ≡ methods api)
        × ((name : String)
            → handlers api' name ≡ (if r.name == name then some r.handler else handlers api name))

module _ {L : Type 0} {F : Framework L} {H : Type 0} (R : Router F H) where
  -- The calls of `get` and `stream`, one after the other.
  unfoldable pub register_all : List (Route H) → F.Api → Result F.ApiError F.Api
  register_all [] api = ok api
  register_all (r ∷ rs) api = R.register r.method api r.name r.handler >>= register_all rs

  -- `define_api`, with the options, the file that is compiled in and the routes.
  unfoldable pub define :
      Option F.FilePath → List (Value L) → String → List (Route H) → Result F.ApiError F.Api
  unfolding register_all
  define api_path extensions default routes = do
    api ← load_api F api_path default extensions
    register_all routes (R.with_version "0.0.1" api)

-- No route has the name, and no two routes have one name.
abbrev pub Lacks : {H : Type 0} → String → List (Route H) → Type 0
Lacks name [] = Unit
Lacks name (r ∷ rs) = ((r.name == name) ≡ false) × Lacks name rs

abbrev pub Distinct : {H : Type 0} → List (Route H) → Type 0
Distinct [] = Unit
Distinct (r ∷ rs) = Lacks r.name rs × Distinct rs

differs : (a b : String) → (a == b) ≡ false → (b == a) ≡ false
differs a b e = ground (arith, eq_iff a b, eq_iff b a)

some_injective : {A : Type 0} {a b : A} → some a ≡ some b → a ≡ b
some_injective e = cc e

module _ {L : Type 0} {F : Framework L} {H : Type 0} {R : Router F H} (laws : RouterLaws R) where
  -- The API has the routes, with no handler yet.
  abbrev pub Offers : F.Api → List (Route H) → Type 0
  Offers api [] = Unit
  Offers api (r ∷ rs) =
      (laws.methods api r.name ≡ some r.method) × (laws.handlers api r.name ≡ none) × Offers api rs

  Offers-kept :
      (api api' : F.Api) (r : Route H) (rs : List (Route H))
      → laws.methods api' ≡ laws.methods api
      → ((name : String)
          → laws.handlers api' name
            ≡ (if r.name == name then some r.handler else laws.handlers api name))
      → Lacks r.name rs
      → Offers api rs
      → Offers api' rs
  Offers-kept api api' r [] same here lacks offers = tt
  Offers-kept api api' r (q ∷ rs) same here (differ, lacks) (method, free, offers) = (
    ap (λ f. f q.name) same ∙ method,
    here q.name ∙ rw (differs q.name r.name differ) free,
    Offers-kept api api' r rs same here lacks offers,
  )

  held_by :
      (r : Route H) (rs : List (Route H)) (api : F.Api)
      → laws.handlers api r.name ≡ some r.handler
      → ((i : ℕ) (q : Route H)
          → get_elem? rs i ≡ some q
          → laws.handlers api q.name ≡ some q.handler)
      → (i : ℕ) (q : Route H) → get_elem? (r ∷ rs) i ≡ some q
      → laws.handlers api q.name ≡ some q.handler
  held_by r rs api first others zero q e =
      subst (λ (o : Route H). laws.handlers api o.name ≡ some o.handler) (some_injective e) first
  held_by r rs api first others (suc i) q e = others i q e

  register_all-keeps :
      (rs : List (Route H)) (api : F.Api)
      → Distinct rs
      → Offers api rs
      → (api' : F.Api) × (register_all R rs api ≡ ok api')
        × ((name : String) → Lacks name rs → laws.handlers api' name ≡ laws.handlers api name)
        × ((i : ℕ) (q : Route H)
            → get_elem? rs i ≡ some q
            → laws.handlers api' q.name ≡ some q.handler)
  unfolding register_all
  register_all-keeps [] api distinct offers = (api, refl, (λ name l. refl), λ i q e. cc)
  register_all-keeps (r ∷ rs) api (lacks, distinct) (method, free, offers) =
      let (one, e, same, here) = laws.registered api r method free in
      let (all, es, beside, held) =
        register_all-keeps rs one distinct (Offers-kept api one r rs same here lacks offers) in
      (
        all,
        rw (e) es,
        λ name l. beside name l.1 ∙ here name ∙ rw (l.0) refl,
        held_by r rs all (beside r.name lacks ∙ here r.name ∙ rw (eq_refl r.name) refl) held,
      )

  -- The routes are those of the document, with the methods of the code.
  abbrev pub HasRoutes : F.Api → List (Route H) → Type 0
  HasRoutes api [] = Unit
  HasRoutes api (r ∷ rs) = (laws.methods api r.name ≡ some r.method) × HasRoutes api rs

  HasRoutes-Offers :
      (api api' : F.Api) (rs : List (Route H))
      → laws.methods api' ≡ laws.methods api
      → ((name : String) → laws.handlers api' name ≡ none)
      → HasRoutes api rs
      → Offers api' rs
  HasRoutes-Offers api api' [] same free has = tt
  HasRoutes-Offers api api' (r ∷ rs) same free (method, has) =
      (ap (λ f. f r.name) same ∙ method, free r.name, HasRoutes-Offers api api' rs same free has)

  pub define-serves :
      (api_path : Option F.FilePath) (extensions : List (Value L)) (default : String)
      (routes : List (Route H)) (i : ℕ) {base : Value L} {loaded : F.Api} {r : Route H}
      → load_base F api_path default ≡ ok base
      → F.new_api (merge_extensions F base extensions) ≡ ok loaded
      → Distinct routes
      → HasRoutes loaded routes
      → get_elem? routes i ≡ some r
      → (api : F.Api) × (define R api_path extensions default routes ≡ ok api)
        × (laws.handlers api r.name ≡ some r.handler)
  unfolding define load_api
  define-serves api_path extensions default routes i {base} {loaded} {r} e f distinct has at =
      let fresh = R.with_version "0.0.1" loaded in
      let free : (name : String) → laws.handlers fresh name ≡ none = λ name.
        ap (λ g. g name) (laws.handlers-with_version "0.0.1" loaded)
        ∙ laws.none_yet (merge_extensions F base extensions) f name in
      let (api, registered, beside, held) = register_all-keeps routes fresh distinct (
        HasRoutes-Offers loaded fresh routes (laws.methods-with_version "0.0.1" loaded) free has) in
      (api, rw (e) (rw (f) registered), held i r at)
