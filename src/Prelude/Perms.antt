-- ===== src/Prelude/Perms.antt =====
-- What a permutation keeps of a list.
use mathlib.Core.Path.{◌≡◌, refl, ap, sym, ◌∙◌}
use mathlib.Core.Bool.{Bool}
use mathlib.Core.Logic.{∥∥₁_elim, inl, inr}
use mathlib.Core.List.{List, Perm, Permᴰ}
use mathlib.Core.List.Permᴰ
use mathlib.Core.List.Permᴰ.{nil, cons, swap, trans}
use native.Mathlib.Omega.{arith}
use scand.Prelude.Conditions.{Bool-cases}
use scand.Prelude.Lists.{any, keep}

module _ {ℓ} {A : Type ℓ} where
  any_permᴰ : (p : A → Bool) (xs ys : List A) → Permᴰ xs ys → any p xs ≡ any p ys
  any_permᴰ p _ _ nil = refl
  any_permᴰ p _ _ (cons {a} {b} {l₁} {l₂} e h) = cc (any_permᴰ p l₁ l₂ h, ap p e)
  any_permᴰ p _ _ (swap {a} {b} {a'} {b'} {l} e f) = ground (arith, ap p e, ap p f)
  any_permᴰ p _ _ (trans {l₁} {l₂} {l₃} h k) = any_permᴰ p l₁ l₂ h ∙ any_permᴰ p l₂ l₃ k

  pub any_perm : (p : A → Bool) (xs ys : List A) → Perm xs ys → any p xs ≡ any p ys
  any_perm p xs ys h = ∥∥₁_elim h (hlevel) (any_permᴰ p xs ys)

  keep_permᴰ : (p : A → Bool) (xs ys : List A) → Permᴰ xs ys → Permᴰ (keep p xs) (keep p ys)
  keep_permᴰ p _ _ nil = nil
  keep_permᴰ p _ _ (cons {a} {b} {l₁} {l₂} e h) =
      let rest = keep_permᴰ p l₁ l₂ h in
      elim (Bool-cases (p a)) [
        | inl q ↦ rw (q, sym (ap p e) ∙ q) (cons e rest)
        | inr q ↦ rw (q, sym (ap p e) ∙ q) rest
      ]
  keep_permᴰ p _ _ (swap {a} {b} {a'} {b'} {l} e f) = elim (Bool-cases (p a)) [
    | inl q ↦ elim (Bool-cases (p b)) [
      | inl r ↦ rw (q, r, sym (ap p e) ∙ q, sym (ap p f) ∙ r) (swap e f)
      | inr r ↦ rw (q, r, sym (ap p e) ∙ q, sym (ap p f) ∙ r) (cons e (Permᴰ.refl (keep p l)))
    ]
    | inr q ↦ elim (Bool-cases (p b)) [
      | inl r ↦ rw (q, r, sym (ap p e) ∙ q, sym (ap p f) ∙ r) (cons f (Permᴰ.refl (keep p l)))
      | inr r ↦ rw (q, r, sym (ap p e) ∙ q, sym (ap p f) ∙ r) (Permᴰ.refl (keep p l))
    ]
  ]
  keep_permᴰ p _ _ (trans {l₁} {l₂} {l₃} h k) = trans (keep_permᴰ p l₁ l₂ h) (keep_permᴰ p l₂ l₃ k)

  pub keep_perm : (p : A → Bool) (xs ys : List A) → Perm xs ys → Perm (keep p xs) (keep p ys)
  keep_perm p xs ys h = ∥∥₁_elim h (hlevel) (λ d. ∣ keep_permᴰ p xs ys d ∣₁)
