-- ===== src/Prelude/Results.antt =====
-- `Result<T, E>`, with `?` as the bind of a do block.
pub data Result {ℓ κ} (E : Type κ) (A : Type ℓ) : Type (ℓ ⊔ κ) where
  err : E → Result E A
  ok : A → Result E A

module _ {ℓ κ μ} {E : Type κ} {A : Type ℓ} where
  -- `Result::map_err`.
  abbrev pub map_err : {F : Type μ} → (E → F) → Result E A → Result F A
  map_err g (err x) = err (g x)
  map_err g (ok v) = ok v

  infixl 5 ◌>>=◌
  abbrev pub ◌>>=◌ : {B : Type μ} → Result E A → (A → Result E B) → Result E B
  err x >>= next = err x
  ok v >>= next = next v
