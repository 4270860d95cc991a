-- ===== src/Strings/Tests.antt =====
-- The texts "AB" and "CDE", in a buffer of five bytes.
use kernel_travel.Base.{◌≡◌, [], ◌∷◌, arith, ok}
use kernel_travel.Strings.{strlcat}
use kernel_travel.Strings.Text.{strlcat_lem}

strlcat_lem_example :
    strlcat (65 ∷ 66 ∷ 0 ∷ 9 ∷ 9 ∷ []) (67 ∷ 68 ∷ 69 ∷ 0 ∷ []) 5
    ≡ ok (65 ∷ 66 ∷ 67 ∷ 68 ∷ 0 ∷ [], 5)
strlcat_lem_example =
    strlcat_lem (65 ∷ 66 ∷ []) (9 ∷ 9 ∷ []) (67 ∷ 68 ∷ 69 ∷ []) [] 5
      (λ e. omega (arith, e), (λ e. omega (arith, e), tt))
      (λ e. omega (arith, e), (λ e. omega (arith, e), (λ e. omega (arith, e), tt))) (omega arith)
      (omega arith) (omega arith) (omega arith)
