-- ===== src/Stream/Drop.antt =====
-- Cutting off the front of a list.
use dockkeep.Prelude.{
  ℕ, zero, suc, ◌+◌, ◌-◌, ◌≤◌, ◌≡◌, refl, sym, ap, ◌∙◌, List, [], ◌∷◌, ◌++◌, length, drop,
  length-append, arith,
}

-- The last `n` elements.
abbrev pub last_n {ℓ} : {A : Type ℓ} → ℕ → List A → List A
last_n n xs = drop (length xs - n) xs

module _ {ℓ} {A : Type ℓ} where
  pub drop_nil : (n : ℕ) → drop {A = A} n [] ≡ []
  drop_nil zero = refl
  drop_nil (suc n) = refl

  pub drop-append_short :
      (n : ℕ) (xs ys : List A) → n ≤ length xs → drop n (xs ++ ys) ≡ drop n xs ++ ys
  drop-append_short zero xs ys h = refl
  drop-append_short (suc n) [] ys h = absurd (omega arith)
  drop-append_short (suc n) (x ∷ xs) ys h = drop-append_short n xs ys (omega arith)

  pub drop-append_long :
      (n : ℕ) (xs ys : List A) → length xs ≤ n → drop n (xs ++ ys) ≡ drop (n - length xs) ys
  drop-append_long n [] ys h = ap (λ k. drop k ys) (omega arith)
  drop-append_long zero (x ∷ xs) ys h = absurd (omega arith)
  drop-append_long (suc n) (x ∷ xs) ys h =
      drop-append_long n xs ys (omega arith) ∙ ap (λ k. drop k ys) (omega arith)

  pub length-drop : (n : ℕ) (xs : List A) → length (drop n xs) ≡ length xs - n
  length-drop zero xs = omega arith
  length-drop (suc n) [] = omega arith
  length-drop (suc n) (x ∷ xs) = length-drop n xs ∙ omega arith

  pub drop-drop : (m n : ℕ) (xs : List A) → drop m (drop n xs) ≡ drop (n + m) xs
  drop-drop m zero xs = ap (λ k. drop k xs) (omega arith)
  drop-drop m (suc n) [] = drop_nil m ∙ sym (drop_nil (suc n + m))
  drop-drop m (suc n) (x ∷ xs) =
      drop-drop m n xs ∙ ap (λ k. drop k (x ∷ xs)) {x = suc (n + m)} (omega arith)

  -- Cutting twice is cutting once.
  pub last_n-append : (n : ℕ) (xs ys : List A) → last_n n (last_n n xs ++ ys) ≡ last_n n (xs ++ ys)
  last_n-append n xs ys =
      let k = length xs - n in
      let e : length (drop k xs ++ ys) ≡ (length xs - k) + length ys =
        length-append (drop k xs) ys ∙ ap (λ j. j + length ys) (length-drop k xs) in
      ap (drop (length (drop k xs ++ ys) - n)) (sym (drop-append_short k xs ys (omega arith)))
      ∙ drop-drop _ k (xs ++ ys)
      ∙ ap (λ j. drop j (xs ++ ys)) (omega (arith, e, length-append xs ys))
