-- ===== src/Metrics/Handles.antt =====
-- What the handles of counters and gauges of src/metrics.rs read after any calls on any of them.
use hotshot_query_service.Prelude.{
  ℕ, ◌+◌, ◌-◌, ◌%◌, ◌^◌, suc, Option, none, some, List, [], ◌∷◌, get_elem?, ◌==◌, if◌then◌else◌,
  ◌≡◌, refl, sym, ap, ◌∙◌, map_option, Bool-cases, Option-cases, inl, inr, arith,
}
use hotshot_query_service.Metrics.{Prometheus, Store}
use hotshot_query_service.Metrics.Grown.{get_elem?-set_same, get_elem?-set_other, get_elem?-lt}
use hotshot_query_service.Metrics.Values.{
  ℤ, pos, negsuc, modify, value_of, counter_add, gauge_set, gauge_update,
}

-- What the crate documents of the atomic 64-bit values, which wrap.
pub record PrometheusLaws (P : Prometheus) : Type 0 where
  pub get-inc_by : (n : ℕ) (v : P.Value) → P.get (P.inc_by n v) ≡ (P.get v + n) % 2 ^ 64
  pub get-store : (n : ℕ) (v : P.Value) → P.get (P.store n v) ≡ n
  pub get-sub : (n : ℕ) (v : P.Value) → P.get (P.sub n v) ≡ (P.get v + 2 ^ 64 - n) % 2 ^ 64

-- A call through a handle.
pub data Call : Type 0 where
  add : ℕ → ℕ → Call
  assign : ℕ → ℕ → Call
  shift : ℕ → ℤ → Call

-- The number behind a handle, after a call on it.
abbrev changed : Call → ℕ → ℕ
changed (add h n) v = (v + n % 2 ^ 64) % 2 ^ 64
changed (assign h n) v = n % 2 ^ 64
changed (shift h (pos n)) v = (v + n) % 2 ^ 64
changed (shift h (negsuc n)) v = (v + 2 ^ 64 - suc n) % 2 ^ 64

abbrev handle_of : Call → ℕ
handle_of (add h n) = h
handle_of (assign h n) = h
handle_of (shift h n) = h

-- The number behind the handle `h` after the calls, if it was `v`.
unfoldable pub replay : ℕ → List Call → ℕ → ℕ
replay h [] v = v
replay h (c ∷ cs) v = replay h cs (if handle_of c == h then changed c v else v)

map_option_id : {A : Type 0} (o : Option A) → map_option (λ v. v) o ≡ o
map_option_id none = refl
map_option_id (some v) = refl

map_option-map_option :
    {A B C : Type 0} (f : A → B) (g : B → C) (o : Option A)
    → map_option g (map_option f o) ≡ map_option (λ v. g (f v)) o
map_option-map_option f g none = refl
map_option-map_option f g (some v) = refl

module _ {P : Prometheus} where
  unfoldable pub call : Store P → Call → Store P
  unfolding counter_add gauge_set gauge_update
  call s (add h n) = counter_add s h n
  call s (assign h n) = gauge_set s h n
  call s (shift h delta) = gauge_update s h delta

  unfoldable pub calls : Store P → List Call → Store P
  unfolding call
  calls s [] = s
  calls s (c ∷ cs) = calls (call s c) cs

  value_of-modify :
      (s : Store P) (m h : ℕ) (f : P.Value → P.Value) (g : ℕ → ℕ)
      → ((v : P.Value) → P.get (f v) ≡ g (P.get v))
      → value_of (modify s m f) h ≡ map_option (λ v. if m == h then g v else v) (value_of s h)
  unfolding value_of
  value_of-modify s m h f g same = elim (Option-cases (get_elem? s.values m)) [
    | inl none_at ↦ ground arith
    | inr (v, at) ↦ elim (Bool-cases (m == h)) [
      | inl here ↦
          ground (arith, same v, get_elem?-lt s.values m v at, get_elem?-set_same s.values m (f v))
      | inr there ↦ ground (arith, get_elem?-set_other s.values m h (f v))
    ]
  ]

  module _ (laws : PrometheusLaws P) where
    value_of-call :
        (s : Store P) (c : Call) (h : ℕ)
        → value_of (call s c) h
          ≡ map_option (λ v. if handle_of c == h then changed c v else v) (value_of s h)
    unfolding call
    value_of-call s (add m n) h =
        value_of-modify s m h (P.inc_by (n % 2 ^ 64)) _ (laws.get-inc_by (n % 2 ^ 64))
    value_of-call s (assign m n) h =
        value_of-modify s m h (P.store (n % 2 ^ 64)) _ (laws.get-store (n % 2 ^ 64))
    value_of-call s (shift m (pos n)) h = value_of-modify s m h (P.inc_by n) _ (laws.get-inc_by n)
    value_of-call s (shift m (negsuc n)) h =
        value_of-modify s m h (P.sub (suc n)) _ (laws.get-sub (suc n))

    -- After any calls through any handles of counters and gauges, a handle reads the number that
    -- the calls through this handle, with 64-bit numbers that wrap, make of the number that it
    -- read before; it reads nothing if it read nothing before.
    pub value_of-calls :
        (s : Store P) (cs : List Call) (h : ℕ)
        → value_of (calls s cs) h ≡ map_option (replay h cs) (value_of s h)
    unfolding calls replay
    value_of-calls s [] h = sym (map_option_id (value_of s h))
    value_of-calls s (c ∷ cs) h =
        value_of-calls (call s c) cs h
        ∙ ap (map_option (replay h cs)) (value_of-call s c h)
        ∙ map_option-map_option (λ v. if handle_of c == h then changed c v else v) (replay h cs)
            (value_of s h)
