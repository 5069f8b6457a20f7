-- ===== src/Transfer/Copy.antt =====
-- The copy loops: what they move, and that within the buffer they always succeed.
use linux_c_homeworks.Prelude.{
  ℕ, zero, suc, ◌+◌, ◌-◌, ◌^◌, ◌≤◌, ◌<◌, ◌≡◌, refl, ap, ◌∙◌, true, some, none, List, arith, length,
  set, get_or, get_elem?-eq-get_or, take-drop, take, drop, ltb, length-set, get_or-set_self,
  get_or-set_ne, if◌then◌else◌,
}
use linux_c_homeworks.Prelude.Int.{pos}
use linux_c_homeworks.Prelude.Words.{i32, i64}
use linux_c_homeworks.Transfer.{clip, copy_in, copy_out, terminate, fill_buffer, rounds}

abbrev pub at : List ℕ → ℕ → ℕ
at xs k = get_or xs k 0

-- The buffer after `n` bytes of the user, from address i on, have been put at p.
pub record Copied (user : ℕ → ℕ) (i p n : ℕ) (xs ys : List ℕ) : Type 0 where
  pub same_length : length ys ≡ length xs
  pub before : (k : ℕ) → k < p → at ys k ≡ at xs k
  pub bytes : (k : ℕ) → k < n → at ys (p + k) ≡ user (i + k)
  pub after : (k : ℕ) → p + n ≤ k → at ys k ≡ at xs k

Copied-more :
    (user : ℕ → ℕ) (i p n : ℕ) (xs ys : List ℕ)
    → p < length xs
    → Copied user (i + 1) (p + 1) n (set xs p (user i)) ys
    → Copied user i p (suc n) xs ys
Copied-more user i p n xs ys h c = record {
  same_length = c.same_length ∙ length-set xs p (user i);
  before = λ k q. c.before k (omega arith) ∙ get_or-set_ne xs p k (user i) 0 (omega arith);
  bytes = elim [
    | zero ↦ λ q. at_zero
    | suc k ↦ λ q.
        let e₁ : p + suc k ≡ p + 1 + k = omega arith in
        let e₂ : i + suc k ≡ i + 1 + k = omega arith in rw (e₁, e₂) (c.bytes k (omega arith))
  ];
  after = λ k q. c.after k (omega arith) ∙ get_or-set_ne xs p k (user i) 0 (omega arith);
}
  where
    at_zero : at ys (p + 0) ≡ user (i + 0)
    at_zero =
        let e₁ : p + 0 ≡ p = omega arith in
        let e₂ : i + 0 ≡ i = omega arith in
        rw (e₁, e₂) (c.before p (omega arith) ∙ get_or-set_self xs p (user i) 0 h)

pub copy_in_lem :
    (user : ℕ → ℕ) (n p i : ℕ) (xs : List ℕ)
    → p + n ≤ length xs
    → (ys : List ℕ) × (copy_in user n p i xs ≡ some ys) × Copied user i p n xs ys
unfolding copy_in
copy_in_lem user zero p i xs h = (
  xs,
  refl,
  record {
    same_length = refl;
    before = λ k q. refl;
    bytes = λ k q. absurd (omega arith);
    after = λ k q. refl;
  },
)
copy_in_lem user (suc n) p i xs h =
    let (ys, run, c) =
      copy_in_lem user n (p + 1) (i + 1) (set xs p (user i))
        (omega (arith, length-set xs p (user i))) in
    let inside : ltb p (length xs) ≡ true = ground arith in
    (ys, rw (inside, copy_in) run, Copied-more user i p n xs ys (omega arith) c)

-- The buffer after a write of n bytes at p: the last byte is replaced by the end of the string.
pub record Written (user : ℕ → ℕ) (p n : ℕ) (xs ys : List ℕ) : Type 0 where
  pub same_length : length ys ≡ length xs
  pub before : (k : ℕ) → k < p → at ys k ≡ at xs k
  pub bytes : (k : ℕ) → k + 1 < n → at ys (p + k) ≡ user k
  pub ended : at ys (p + n - 1) ≡ 0
  pub after : (k : ℕ) → p + n ≤ k → at ys k ≡ at xs k

terminate_lem :
    (p : ℕ) (xs : List ℕ) → 0 < p → p ≤ length xs → terminate p xs ≡ some (set xs (p - 1) 0)
unfolding terminate
terminate_lem p xs h k = ground arith

terminate-Written :
    (user : ℕ → ℕ) (p n : ℕ) (xs ys : List ℕ)
    → 0 < n
    → p + n ≤ length xs
    → Copied user 0 p n xs ys
    → Written user p n xs (set ys (p + n - 1) 0)
terminate-Written user p n xs ys some_bytes h c = record {
  same_length = length-set ys (p + n - 1) 0 ∙ c.same_length;
  before = λ k q. get_or-set_ne ys (p + n - 1) k 0 0 (omega arith) ∙ c.before k q;
  bytes = λ k q.
      let e : 0 + k ≡ k = omega arith in
      get_or-set_ne ys (p + n - 1) (p + k) 0 0 (omega arith) ∙ c.bytes k (omega arith) ∙ ap user e;
  ended = get_or-set_self ys (p + n - 1) 0 0 (omega (arith, c.same_length));
  after = λ k q. get_or-set_ne ys (p + n - 1) k 0 0 (omega arith) ∙ c.after k q;
}

pub rounds_small : (n : ℕ) → n < 2 ^ 63 → rounds n ≡ n
unfolding rounds
rounds_small n h = ground arith

-- Filling n bytes, n not 0, that fit at p.
pub fill_buffer_lem :
    (user : ℕ → ℕ) (p n : ℕ) (xs : List ℕ)
    → 0 < n
    → n < 2 ^ 63
    → p + n ≤ length xs
    → (ys : List ℕ) × (fill_buffer user (pos p) n xs ≡ some ys) × Written user p n xs ys
unfolding fill_buffer
fill_buffer_lem user p n xs some_bytes small h =
    let (ys, run, c) = copy_in_lem user n p 0 xs h in
    let e = rounds_small n small in
    (
      set ys (p + n - 1) 0,
      rw (e, fill_buffer, run, e)
          (terminate_lem (p + n) ys (omega arith) (omega (arith, c.same_length))),
      terminate-Written user p n xs ys some_bytes h c,
    )

-- A fill of 0 bytes at the start of the buffer accesses the byte before it.
pub fill_buffer-none : (user : ℕ → ℕ) (xs : List ℕ) → fill_buffer user (pos 0) 0 xs ≡ none
unfolding fill_buffer copy_in terminate rounds
fill_buffer-none user xs = refl

-- Both sides of a clip: what fits is kept whole.
abbrev pub clipped : ℕ → ℕ → ℕ → ℕ
clipped p limit n = if ltb limit (p + n) then limit - p else n

pub clip_lem :
    (p limit n : ℕ)
    → p ≤ limit
    → limit < 2 ^ 31
    → n < 2 ^ 63
    → clip (pos p) limit n ≡ clipped p limit n
unfolding clip
clip_lem p limit n h k l = ground arith

pub i32_small : (n : ℕ) → n < 2 ^ 31 → i32 n ≡ pos n
i32_small n h = ground arith

pub i64_small : (n : ℕ) → n < 2 ^ 63 → i64 n ≡ pos n
i64_small n h = ground arith

-- Reading n bytes that are there.
pub copy_out_lem :
    (n p : ℕ) (xs : List ℕ) → p + n ≤ length xs → copy_out n p xs ≡ some (take n (drop p xs))
unfolding copy_out
copy_out_lem zero p xs h = refl
copy_out_lem (suc n) p xs h = rw (
  get_elem?-eq-get_or xs p 0 (omega arith),
  copy_out,
  copy_out_lem n (p + 1) xs (omega arith),
  take-drop xs p n 0 (omega arith),
)
