-- ===== src/Solana/Slots/Blocks.antt =====
-- Reading and writing inside bytes that follow a prefix.
use lxmf_react_native_rust.Prelude.{
  ℕ, zero, suc, ◌+◌, ◌*◌, ◌<◌, ◌≡◌, sym, ap, ap₂, ◌∙◌, List, [], ◌∷◌, ◌++◌, append_assoc, arith,
  Bytes, length, set, take, drop,
}
use lxmf_react_native_rust.Solana.Message.{concat}
use lxmf_react_native_rust.Solana.Message.Layout.{AllLength, drop_append}

pub take_past {ℓ} :
    {A : Type ℓ} (p xs : List A) (k n : ℕ) → n ≡ length p + k → take n (p ++ xs) ≡ p ++ take k xs
take_past [] xs k n h = ap (λ j. take j xs) {x = n} {y = k} (omega arith)
take_past (b ∷ p) xs k zero h = absurd (omega arith)
take_past (b ∷ p) xs k (suc n) h = ap (◌∷◌ b) (take_past p xs k n (omega arith))

pub drop_past {ℓ} :
    {A : Type ℓ} (p xs : List A) (k n : ℕ) → n ≡ length p + k → drop n (p ++ xs) ≡ drop k xs
drop_past [] xs k n h = ap (λ j. drop j xs) {x = n} {y = k} (omega arith)
drop_past (b ∷ p) xs k zero h = absurd (omega arith)
drop_past (b ∷ p) xs k (suc n) h = drop_past p xs k n (omega arith)

-- Writing block `i` in the bytes is writing it in the list of blocks.
pub concat-set :
    (n : ℕ) (ks : List Bytes) (i : ℕ) (v t : Bytes)
    → AllLength n ks
    → i < length ks
    → take (i * n) (concat ks ++ t) ++ (v ++ drop (i * n + n) (concat ks ++ t))
      ≡ concat (set ks i v) ++ t
unfolding concat
concat-set n [] i v t h lt = absurd (omega arith)
concat-set n (b ∷ ks) zero v t h lt =
    ap (λ j. take j ((b ++ concat ks) ++ t) ++ (v ++ drop (zero * n + n) ((b ++ concat ks) ++ t)))
      {x = zero * n} {y = 0} (omega arith)
    ∙ ap (λ j. v ++ drop j ((b ++ concat ks) ++ t)) {x = zero * n + n} {y = n} (omega arith)
    ∙ ap (λ z. v ++ drop n z) (append_assoc b (concat ks) t)
    ∙ ap (v ++◌) (drop_append n b (concat ks ++ t) h.0)
    ∙ sym (append_assoc v (concat ks) t)
concat-set n (b ∷ ks) (suc i) v t h lt =
    ap (λ z. take (suc i * n) z ++ (v ++ drop (suc i * n + n) z)) (append_assoc b (concat ks) t)
    ∙ ap₂ (λ x y. x ++ (v ++ y))
        (take_past b (concat ks ++ t) (i * n) (suc i * n) (grind (arith, h.0)))
        (drop_past b (concat ks ++ t) (i * n + n) (suc i * n + n) (grind (arith, h.0)))
    ∙ append_assoc b (take (i * n) (concat ks ++ t)) (v ++ drop (i * n + n) (concat ks ++ t))
    ∙ ap (b ++◌) (concat-set n ks i v t h.1 (omega arith))
    ∙ sym (append_assoc b (concat (set ks i v)) t)

pub set-AllLength :
    (n : ℕ) (ks : List Bytes) (i : ℕ) (v : Bytes)
    → AllLength n ks
    → length v ≡ n
    → AllLength n (set ks i v)
set-AllLength n [] i v h e = tt
set-AllLength n (b ∷ ks) zero v h e = (e, h.1)
set-AllLength n (b ∷ ks) (suc i) v h e = (h.0, set-AllLength n ks i v h.1 e)
