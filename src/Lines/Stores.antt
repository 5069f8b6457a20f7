-- ===== src/Lines/Stores.antt =====
-- Characters that go one after the other into an array, as one list laid over it.
use linux_c_homeworks.Prelude.{
  length, set, ℕ, zero, suc, ◌+◌, ◌≤◌, ◌<◌, ◌≡◌, refl, ap, List, [], ◌∷◌, ◌++◌, true, false, none,
  some, sym, ◌∙◌, ltb, arith,
}
use linux_c_homeworks.Lines.{store}

abbrev pub lay : ℕ → List ℕ → List ℕ → List ℕ
lay i xs [] = []
lay zero [] (b ∷ bs) = b ∷ bs
lay zero (x ∷ xs) (b ∷ bs) = x ∷ lay zero xs bs
lay (suc i) xs (b ∷ bs) = b ∷ lay i xs bs

pub length-lay : (i : ℕ) (xs bs : List ℕ) → length (lay i xs bs) ≡ length bs
length-lay i xs [] = refl
length-lay zero [] (b ∷ bs) = refl
length-lay zero (x ∷ xs) (b ∷ bs) = ap suc (length-lay zero xs bs)
length-lay (suc i) xs (b ∷ bs) = ap suc (length-lay i xs bs)

pub lay-nil : (i : ℕ) (bs : List ℕ) → lay i [] bs ≡ bs
lay-nil i [] = refl
lay-nil zero (b ∷ bs) = refl
lay-nil (suc i) (b ∷ bs) = ap (λ xs. b ∷ xs) (lay-nil i bs)

lay_step : (i x : ℕ) (xs bs : List ℕ) → lay (suc i) xs (set bs i x) ≡ lay i (x ∷ xs) bs
lay_step i x xs [] = refl
lay_step zero x xs (b ∷ bs) = ap (λ ys. x ∷ ys) refl
lay_step (suc i) x xs (b ∷ bs) = ap (λ ys. b ∷ ys) (lay_step i x xs bs)

pub lay-set : (i x : ℕ) (xs bs : List ℕ) → lay (i + 1) xs (set bs i x) ≡ lay i (x ∷ xs) bs
lay-set i x xs bs = let e : i + 1 ≡ suc i = omega arith in rw e (lay_step i x xs bs)

-- The next character of a text that is laid at the start.
pub set-lay :
    (x : ℕ) (xs bs : List ℕ) → set (lay zero xs bs) (length xs) x ≡ lay zero (xs ++ (x ∷ [])) bs
set-lay x xs [] = refl
set-lay x [] (b ∷ []) = refl
set-lay x [] (b ∷ c ∷ bs) = refl
set-lay x (y ∷ xs) (b ∷ bs) = ap (λ ys. y ∷ ys) (set-lay x xs bs)

pub set-lay_at :
    (k x : ℕ) (xs bs : List ℕ)
    → k ≡ length xs
    → set (lay zero xs bs) k x ≡ lay zero (xs ++ (x ∷ [])) bs
set-lay_at k x xs bs e = ap (λ i. set (lay zero xs bs) i x) e ∙ set-lay x xs bs

pub store_inside : (bs : List ℕ) (i c : ℕ) → i < length bs → store bs i c ≡ some (set bs i c)
unfolding store
store_inside bs i c h = let e : ltb i (length bs) ≡ true = ground arith in rw e refl

pub store_outside : (bs : List ℕ) (i c : ℕ) → length bs ≤ i → store bs i c ≡ none
unfolding store
store_outside bs i c h = let e : ltb i (length bs) ≡ false = ground arith in rw e refl

pub set-set : (bs : List ℕ) (i c d : ℕ) → set (set bs i c) i d ≡ set bs i d
set-set [] i c d = refl
set-set (b ∷ bs) zero c d = refl
set-set (b ∷ bs) (suc i) c d = ap (λ ys. b ∷ ys) (set-set bs i c d)

pub lay-one : (i x : ℕ) (bs : List ℕ) → set bs i x ≡ lay i (x ∷ []) bs
lay-one i x bs = sym (lay-nil (i + 1) (set bs i x)) ∙ lay-set i x [] bs

pub store-lay :
    (k x : ℕ) (xs bs : List ℕ)
    → k ≡ length xs
    → length xs < length bs
    → store (lay zero xs bs) k x ≡ some (lay zero (xs ++ (x ∷ [])) bs)
store-lay k x xs bs e h =
    store_inside (lay zero xs bs) k x (omega (arith, length-lay zero xs bs))
    ∙ ap some (set-lay_at k x xs bs e)
