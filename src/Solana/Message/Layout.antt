-- ===== src/Solana/Message/Layout.antt =====
-- Keys and signatures inside the bytes: blocks of one size, found by their index.
use lxmf_react_native_rust.Prelude.{
  ℕ, zero, suc, ◌+◌, ◌*◌, ◌<◌, ◌≡◌, refl, sym, ap, ◌∙◌, some, List, [], ◌∷◌, ◌++◌, append_assoc,
  arith, Bytes, length, get_elem?, take, drop, length-append,
}
use lxmf_react_native_rust.Solana.Message.{concat}

-- Every block has `n` bytes.
abbrev pub AllLength : ℕ → List Bytes → Type 0
AllLength n [] = Unit {0}
AllLength n (k ∷ ks) = (length k ≡ n) × AllLength n ks

pub length-concat : (n : ℕ) (ks : List Bytes) → AllLength n ks → length (concat ks) ≡ length ks * n
unfolding concat
length-concat n [] h = omega arith
length-concat n (k ∷ ks) h = omega (arith, length-append k (concat ks), h.0, length-concat n ks h.1)

drop-nil {ℓ} : (A : Type ℓ) (k : ℕ) → drop {A = A} k [] ≡ []
drop-nil A zero = refl
drop-nil A (suc k) = refl

pub drop-drop {ℓ} : {A : Type ℓ} (m n : ℕ) (xs : List A) → drop m (drop n xs) ≡ drop (n + m) xs
drop-drop m zero xs = ap (λ k. drop k xs) {x = m} {y = zero + m} (omega arith)
drop-drop {A} m (suc n) [] = drop-nil A m ∙ sym (drop-nil A (suc n + m))
drop-drop m (suc n) (x ∷ xs) =
    drop-drop m n xs ∙ ap (λ k. drop k (x ∷ xs)) {x = suc (n + m)} {y = suc n + m} (omega arith)

pub take_append {ℓ} : {A : Type ℓ} (n : ℕ) (xs ys : List A) → length xs ≡ n → take n (xs ++ ys) ≡ xs
take_append zero [] ys h = refl
take_append zero (x ∷ xs) ys h = absurd (omega arith)
take_append (suc n) [] ys h = absurd (omega arith)
take_append (suc n) (x ∷ xs) ys h = ap (◌∷◌ x) (take_append n xs ys (omega arith))

pub drop_append {ℓ} : {A : Type ℓ} (n : ℕ) (xs ys : List A) → length xs ≡ n → drop n (xs ++ ys) ≡ ys
drop_append zero [] ys h = refl
drop_append zero (x ∷ xs) ys h = absurd (omega arith)
drop_append (suc n) [] ys h = absurd (omega arith)
drop_append (suc n) (x ∷ xs) ys h = drop_append n xs ys (omega arith)

-- Block `i` starts at byte `i * n`.
pub block_at :
    (n : ℕ) (ks : List Bytes) (i : ℕ) (k t : Bytes)
    → AllLength n ks
    → get_elem? ks i ≡ some k
    → take n (drop (i * n) (concat ks ++ t)) ≡ k
unfolding concat
block_at n [] i k t h e = cc
block_at n (b ∷ ks) zero k t h e =
    ap (take n) (
      ap (λ j. drop j ((b ++ concat ks) ++ t)) {y = 0} (omega arith) ∙ append_assoc b (concat ks) t)
    ∙ take_append n b (concat ks ++ t) h.0
    ∙ ground arith
block_at n (b ∷ ks) (suc i) k t h e =
    ap (take n) (
      ap (λ j. drop j ((b ++ concat ks) ++ t)) {y = n + i * n} (grind arith)
      ∙ sym (drop-drop (i * n) n ((b ++ concat ks) ++ t))
      ∙ ap (drop (i * n))
          (ap (drop n) (append_assoc b (concat ks) t) ∙ drop_append n b (concat ks ++ t) h.0))
    ∙ block_at n ks i k t h.1 e

pub get_elem?-lt {ℓ} :
    {A : Type ℓ} (xs : List A) (i : ℕ) (x : A) → get_elem? xs i ≡ some x → i < length xs
get_elem?-lt [] i x e = cc
get_elem?-lt (y ∷ xs) zero x e = omega arith
get_elem?-lt (y ∷ xs) (suc i) x e = omega (arith, get_elem?-lt xs i x e)
