-- ===== src/Worker/Limits.antt =====
-- runtime/limits.js: the limits of the browser, and what a caller may ask for.
use mathlib.Core.Path.{subst}
use veilforge.Base.{
  sym, ap, ◌∙◌, ==_iff, ℕ, ◌*◌, ◌≤◌, ltb, ◌==◌, ◌≡◌, refl, true, ◌||◌, Option, none, some, List, [],
  ◌∷◌, if◌then◌else◌, arith, Bool-cases, inl, inr,
}

some-injective : {A : Type 0} {a b : A} → ◌≡◌ {A = Option A} (some a) (some b) → a ≡ b
some-injective h = cc

-- The keys of WEB_V4_LIMITS.
pub data Key : Type 0 where
  max_file_count max_per_file_bytes max_project_bytes max_worker_project_bytes : Key
  max_persistence_bytes stage_timeout_ms global_timeout_ms abort_grace_ms : Key

abbrev pub web_v4_limits : Key → ℕ
web_v4_limits max_file_count = 100
web_v4_limits max_per_file_bytes = 512 * 1024
web_v4_limits max_project_bytes = 1 * 1024 * 1024
web_v4_limits max_worker_project_bytes = 1 * 1024 * 1024
web_v4_limits max_persistence_bytes = 2 * 1024 * 1024
web_v4_limits stage_timeout_ms = 120000
web_v4_limits global_timeout_ms = 300000
web_v4_limits abort_grace_ms = 1000

abbrev pub index : Key → ℕ
index max_file_count = 0
index max_per_file_bytes = 1
index max_project_bytes = 2
index max_worker_project_bytes = 3
index max_persistence_bytes = 4
index stage_timeout_ms = 5
index global_timeout_ms = 6
index abort_grace_ms = 7

abbrev pub set_limit : Key → ℕ → (Key → ℕ) → Key → ℕ
set_limit key value limits k = if index k == index key then value else limits k

-- An asked value is none where it is no integer, or negative; a key is none where it is no limit's.
unfoldable pub set_limits : List (Option Key × Option ℕ) → (Key → ℕ) → Option (Key → ℕ)
set_limits [] limits = some limits
set_limits ((none, value) ∷ rest) limits = none
set_limits ((some key, none) ∷ rest) limits = none
set_limits ((some key, some value) ∷ rest) limits =
    let result = set_limits rest (set_limit key value limits) in
    if value == 0 || ltb (web_v4_limits key) value then none else result

abbrev pub fit_project : Option (Key → ℕ) → Option (Key → ℕ)
fit_project none = none
fit_project (some limits) = some (
    if ltb (limits max_worker_project_bytes) (limits max_project_bytes)
    then set_limit max_project_bytes (limits max_worker_project_bytes) limits
    else limits)

-- The error of the source is none.
unfoldable pub normalize_web_v4_limits : List (Option Key × Option ℕ) → Option (Key → ℕ)
unfolding set_limits
normalize_web_v4_limits asked = fit_project (set_limits asked web_v4_limits)

unfoldable key_of : ℕ → Key
key_of n =
    if n == 0
    then max_file_count
    else if n == 1
    then max_per_file_bytes
    else if n == 2
    then max_project_bytes
    else if n == 3
    then max_worker_project_bytes
    else if n == 4
    then max_persistence_bytes
    else if n == 5
    then stage_timeout_ms
    else if n == 6
    then global_timeout_ms
    else abort_grace_ms

key_of-index : (k : Key) → key_of (index k) ≡ k
unfolding key_of
key_of-index max_file_count = refl
key_of-index max_per_file_bytes = refl
key_of-index max_project_bytes = refl
key_of-index max_worker_project_bytes = refl
key_of-index max_persistence_bytes = refl
key_of-index stage_timeout_ms = refl
key_of-index global_timeout_ms = refl
key_of-index abort_grace_ms = refl

same_key : (k key : Key) → (index k == index key) ≡ true → k ≡ key
same_key k key h =
    sym (key_of-index k) ∙ ap key_of ((==_iff (index k) (index key)).0 h) ∙ key_of-index key

-- Every limit is positive, and at most what the browser allows.
abbrev pub InRange : (Key → ℕ) → Type 0
InRange limits = (k : Key) → (1 ≤ limits k) × (limits k ≤ web_v4_limits k)

web_v4_limits-InRange : InRange web_v4_limits
web_v4_limits-InRange max_file_count = (omega arith, omega arith)
web_v4_limits-InRange max_per_file_bytes = (omega arith, omega arith)
web_v4_limits-InRange max_project_bytes = (omega arith, omega arith)
web_v4_limits-InRange max_worker_project_bytes = (omega arith, omega arith)
web_v4_limits-InRange max_persistence_bytes = (omega arith, omega arith)
web_v4_limits-InRange stage_timeout_ms = (omega arith, omega arith)
web_v4_limits-InRange global_timeout_ms = (omega arith, omega arith)
web_v4_limits-InRange abort_grace_ms = (omega arith, omega arith)

set_limit-InRange :
    (key : Key) (value : ℕ) (limits : Key → ℕ)
    → 1 ≤ value
    → value ≤ web_v4_limits key
    → InRange limits
    → InRange (set_limit key value limits)
set_limit-InRange key value limits low high h k = elim (Bool-cases (index k == index key)) [
  | inl same ↦
      let at : web_v4_limits k ≡ web_v4_limits key = ap web_v4_limits (same_key k key same) in
      rw same (low, omega (arith, high, at))
  | inr other ↦ rw other (h k)
]

set_limits-InRange :
    (asked : List (Option Key × Option ℕ)) (limits result : Key → ℕ)
    → InRange limits
    → set_limits asked limits ≡ some result
    → InRange result
unfolding set_limits
set_limits-InRange [] limits result h e = subst InRange (some-injective e) h
set_limits-InRange ((none, value) ∷ rest) limits result h e = cc
set_limits-InRange ((some key, none) ∷ rest) limits result h e = cc
set_limits-InRange ((some key, some value) ∷ rest) limits result h e =
    elim (Bool-cases (value == 0 || ltb (web_v4_limits key) value)) [
      | inl bad ↦
          let refused : set_limits ((some key, some value) ∷ rest) limits ≡ none = rw bad refl in cc
      | inr fine ↦
          let taken : set_limits ((some key, some value) ∷ rest) limits
              ≡ set_limits rest (set_limit key value limits) =
            rw fine refl in
          set_limits-InRange rest (set_limit key value limits) result
            (set_limit-InRange key value limits (ground (arith, fine)) (ground (arith, fine)) h)
            (sym taken ∙ e)
    ]

fit_project-InRange :
    (o : Option (Key → ℕ)) (result : Key → ℕ)
    → ((limits : Key → ℕ) → o ≡ some limits → InRange limits)
    → fit_project o ≡ some result
    → InRange result × (result max_project_bytes ≤ result max_worker_project_bytes)
fit_project-InRange none result h e = cc
fit_project-InRange (some limits) result h e =
    subst (λ f. InRange f × (f max_project_bytes ≤ f max_worker_project_bytes)) (some-injective e)
      (elim (Bool-cases (ltb (limits max_worker_project_bytes) (limits max_project_bytes))) [
        | inl over ↦
            let range = h limits refl in
            let low = (range max_worker_project_bytes).0 in
            let high = (range max_worker_project_bytes).1 in
            rw over (
              set_limit-InRange max_project_bytes (limits max_worker_project_bytes) limits low high
                  range,
              omega arith,
            )
        | inr fits ↦ rw fits (h limits refl, ground (arith, fits))
      ])

-- When the asked limits are accepted, each limit is positive and at most the browser's own, and a
-- project is allowed no more bytes than the worker's project.
pub normalize_web_v4_limits_bounds :
    (asked : List (Option Key × Option ℕ)) (result : Key → ℕ)
    → normalize_web_v4_limits asked ≡ some result
    → InRange result × (result max_project_bytes ≤ result max_worker_project_bytes)
unfolding normalize_web_v4_limits
normalize_web_v4_limits_bounds asked result h =
    fit_project-InRange (set_limits asked web_v4_limits) result
      (λ limits e. set_limits-InRange asked web_v4_limits limits web_v4_limits-InRange e) h
