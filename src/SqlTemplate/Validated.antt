-- ===== src/SqlTemplate/Validated.antt =====
-- What validatePlaceholders accepts (internal/sqltemplate/sqltemplate.go).
use cannectors.Prelude.{
  ℕ, zero, suc, ◌≡◌, ◌≤◌, ◌↔◌, refl, ap, ◌∙◌, arith, true, Bool-cases, none, List, [], ◌∷◌, Text,
  ◌==◌, inl, inr,
}
use cannectors.SqlTemplate.Scan.{scan_placeholders}
use cannectors.SqlTemplate.Build.{refers_to, within, all_referenced, validate_placeholders}

within_iff :
    (count : ℕ) (ns : List ℕ)
    → (within count ns ≡ true) ↔ ((n : ℕ) → refers_to n ns ≡ true → n ≤ count)
unfolding within
within_iff count [] = (λ h n r. absurd cc, λ h. refl)
within_iff count (m ∷ ns) = (
  λ h n r. elim (Bool-cases (m == n)) [
    | inl e ↦ ground (arith, h, e)
    | inr e ↦ (within_iff count ns).0 (ground (arith, h)) n (ground (arith, r, e))
  ],
  λ h.
      let low = h m (ground arith) in
      let rest = (within_iff count ns).1 (λ n r. h n (ground (arith, r))) in
      ground (arith, low, rest),
)

all_referenced_iff :
    (count : ℕ) (ns : List ℕ)
    → (all_referenced count ns ≡ true) ↔ ((n : ℕ) → 1 ≤ n → n ≤ count → refers_to n ns ≡ true)
unfolding all_referenced
all_referenced_iff zero ns = (λ h n low high. absurd (omega arith), λ h. refl)
all_referenced_iff (suc count) ns = (
  λ h n low high. elim (Bool-cases (n == suc count)) [
    | inl e ↦
        let same_number : n ≡ suc count = ground (arith, e) in
        ap (λ k. refers_to k ns) same_number ∙ ground (arith, h)
    | inr e ↦ (all_referenced_iff count ns).0 (ground (arith, h)) n low (ground (arith, e))
  ],
  λ h.
      let last = h (suc count) (omega arith) (omega arith) in
      let rest = (all_referenced_iff count ns).1 (λ n low high. h n low (omega arith)) in
      ground (arith, last, rest),
)

-- validatePlaceholders accepts a query exactly when every parameter from 1 to `count` is referred to
-- and no reference is above `count`; a reference to 0 is let through.
pub validate_placeholders_iff :
    (source : Text) (count : ℕ)
    → (validate_placeholders source count ≡ none) ↔ (
        ((n : ℕ) → refers_to n (scan_placeholders source) ≡ true → n ≤ count)
        × ((n : ℕ) → 1 ≤ n → n ≤ count → refers_to n (scan_placeholders source) ≡ true))
unfolding validate_placeholders
validate_placeholders_iff source count =
    let ns = scan_placeholders source in
    (
      λ h. (
        (within_iff count ns).0 (ground (arith, h)),
        (all_referenced_iff count ns).0 (ground (arith, h)),
      ),
      λ h.
          let inside = (within_iff count ns).1 h.0 in
          let all = (all_referenced_iff count ns).1 h.1 in ground (arith, inside, all),
    )
