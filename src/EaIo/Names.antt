-- ===== src/EaIo/Names.antt =====
-- The list of attributes as a map from names, compared without case.
use rust_fs_ntfs.Base.{ℕ, ◌≤◌, ◌<◌, ◌≡◌, ◌≢◌, refl, arith, inl, inr}
use rust_fs_ntfs.Base.{◌↔◌, ap, sym, ◌∙◌, true, false, Bool-cases, if◌then◌else◌}
use rust_fs_ntfs.Base.{List, [], ◌∷◌, map, length, Option, some, none, bytes_eq, bytes_eq_iff}
use rust_fs_ntfs.EaIo.{Ea, ascii_lower, eq_ignore_ascii_case, upsert, retain_others, remove_by_name}

-- The first attribute with a name.
abbrev pub lookup : List Ea → List ℕ → Option Ea
lookup [] name = none
lookup (e ∷ list) name =
    let rest = lookup list name in if eq_ignore_ascii_case e.name name then some e else rest

eq_replace :
    (a b c : List ℕ)
    → eq_ignore_ascii_case a b ≡ true
    → eq_ignore_ascii_case a c ≡ eq_ignore_ascii_case b c
unfolding eq_ignore_ascii_case
eq_replace a b c h =
    ap (λ t. bytes_eq t (map ascii_lower c))
      ((bytes_eq_iff (map ascii_lower a) (map ascii_lower b)).0 h)

eq_join :
    (a b c : List ℕ)
    → eq_ignore_ascii_case a c ≡ true
    → eq_ignore_ascii_case b c ≡ true
    → eq_ignore_ascii_case a b ≡ true
unfolding eq_ignore_ascii_case
eq_join a b c h k =
    let left = (bytes_eq_iff (map ascii_lower a) (map ascii_lower c)).0 h in
    let right = (bytes_eq_iff (map ascii_lower b) (map ascii_lower c)).0 k in
    (bytes_eq_iff (map ascii_lower a) (map ascii_lower b)).1 (left ∙ sym right)

-- After an upsert the name of the entry, in any case, gives the entry, and any other name gives
-- what it gave before.
pub lookup-upsert :
    (list : List Ea) (entry : Ea) (name : List ℕ)
    → lookup (upsert list entry) name
      ≡ (if eq_ignore_ascii_case entry.name name then some entry else lookup list name)
unfolding upsert
lookup-upsert [] entry name = refl
lookup-upsert (e ∷ list) entry name = elim (Bool-cases (eq_ignore_ascii_case e.name entry.name)) [
  | inl same ↦
      rw (same, eq_replace e.name entry.name name same)
        (elim (Bool-cases (eq_ignore_ascii_case entry.name name)) [
          | inl hit ↦ rw hit refl
          | inr miss ↦ rw miss refl
        ])
  | inr other ↦
      rw (other, lookup-upsert list entry name)
        (elim (Bool-cases (eq_ignore_ascii_case e.name name)) [
          | inl hit ↦
              let apart : eq_ignore_ascii_case entry.name name ≡ false =
                elim (Bool-cases (eq_ignore_ascii_case entry.name name)) [
                  | inl both ↦ absurd (cc (other, eq_join e.name entry.name name hit both))
                  | inr apart ↦ apart
                ] in
              rw (hit, apart) refl
          | inr miss ↦ rw miss refl
        ])
]

lookup-retain_others :
    (list : List Ea) (name other : List ℕ)
    → lookup (retain_others list name) other
      ≡ (if eq_ignore_ascii_case name other then none else lookup list other)
unfolding retain_others
lookup-retain_others [] name other = elim (Bool-cases (eq_ignore_ascii_case name other)) [
  | inl hit ↦ rw hit refl
  | inr miss ↦ rw miss refl
]
lookup-retain_others (e ∷ list) name other =
    let ih = lookup-retain_others list name other in
    elim (Bool-cases (eq_ignore_ascii_case e.name name)) [
      | inl same ↦
          rw (same, ih, eq_replace e.name name other same)
            (elim (Bool-cases (eq_ignore_ascii_case name other)) [
              | inl hit ↦ rw hit refl
              | inr miss ↦ rw miss refl
            ])
      | inr apart ↦
          rw (apart, ih)
            (elim (Bool-cases (eq_ignore_ascii_case e.name other)) [
              | inl hit ↦
                  let miss : eq_ignore_ascii_case name other ≡ false =
                    elim (Bool-cases (eq_ignore_ascii_case name other)) [
                      | inl both ↦ absurd (cc (apart, eq_join e.name name other hit both))
                      | inr miss ↦ miss
                    ] in
                  rw (hit, miss) refl
              | inr miss ↦ rw miss refl
            ])
    ]

length-retain_others :
    (list : List Ea) (name : List ℕ)
    → (lookup list name ≡ none → retain_others list name ≡ list)
      × (length (retain_others list name) ≤ length list)
      × (lookup list name ≢ none → length (retain_others list name) < length list)
unfolding retain_others
length-retain_others [] name = (λ h. refl, omega arith, λ h. absurd (h refl))
length-retain_others (e ∷ list) name =
    let (kept, low, less) = length-retain_others list name in
    elim (Bool-cases (eq_ignore_ascii_case e.name name)) [
      | inl same ↦ rw same (λ h. cc, omega (arith, low), λ h. omega (arith, low))
      | inr other ↦
          rw other (λ h. ap (λ t. e ∷ t) (kept h), omega (arith, low), λ h. omega (arith, less h))
    ]

-- Removing a name, in any case, leaves a list in which that name has no attribute and every other
-- name gives what it gave before; the result says whether the name had an attribute.
pub remove_by_name-lookup :
    (list : List Ea) (name : List ℕ)
    → let (left, removed) = remove_by_name list name in
      ((other : List ℕ)
        → lookup left other ≡ (if eq_ignore_ascii_case name other then none else lookup list other))
      × ((removed ≡ true) ↔ (lookup list name ≢ none))
unfolding remove_by_name
remove_by_name-lookup list name =
    let (kept, low, less) = length-retain_others list name in
    (
      λ other. lookup-retain_others list name other,
      (λ h e. absurd (ground (arith, h, ap length (kept e))), λ n. ground (arith, less n)),
    )
