-- ===== src/Worker/Bounds.antt =====
-- When the thread of module_device stays within its block.
use linux_c_homeworks.Prelude.{
  ℕ, zero, suc, ◌+◌, ◌/◌, ◌^◌, ◌≤◌, ◌<◌, ◌≡◌, refl, ap, ◌∙◌, sym, Bool, true, false, none, some,
  List, ltb, if◌then◌else◌, arith, set, length, length-set, length-replicate, Bool-cases, inl, inr,
}
use mathlib.Core.Path.{subst}
use linux_c_homeworks.Prelude.Int.{ℤ, pos, negsuc, eqb_ℤ, eqb_ℤ_iff}
use linux_c_homeworks.Prelude.Words.{u32, i32}
use linux_c_homeworks.Worker.{
  Shared, bytes_for, block, rounds_for, generate_loop, generate_random_numbers, Outcome, goes_on,
  stops, out_of_bounds, generate_in, thread_round, thread_start, init_array, store_amount,
}

-- A block for an amount has room for as many numbers as the loop draws, though the one is computed
-- in size_t and the other in int.
rounds-fit : (amount : ℤ) → rounds_for (i32 (u32 amount)) ≤ bytes_for amount / 4
rounds-fit (pos n) = ground arith
rounds-fit (negsuc n) = ground arith

generate_loop_lem :
    (draw : ℕ → ℕ) (rounds i : ℕ) (nums : List ℤ)
    → i + rounds ≤ length nums
    → (nums' : List ℤ) × (generate_loop draw rounds i nums ≡ some nums')
      × (length nums' ≡ length nums)
unfolding generate_loop
generate_loop_lem draw zero i nums h = (nums, refl, refl)
generate_loop_lem draw (suc rounds) i nums h =
    let e = length-set nums i (i32 (draw i)) in
    let inside : ltb i (length nums) ≡ true = ground arith in
    let (nums', run, same) =
      generate_loop_lem draw rounds (i + 1) (set nums i (i32 (draw i))) (omega (arith, e)) in
    (nums', rw (inside, generate_loop) run, same ∙ e)

generate_loop_over :
    (draw : ℕ → ℕ) (rounds i : ℕ) (nums : List ℤ)
    → i ≤ length nums
    → length nums < i + rounds
    → generate_loop draw rounds i nums ≡ none
unfolding generate_loop
generate_loop_over draw zero i nums h over = absurd (omega arith)
generate_loop_over draw (suc rounds) i nums h over = elim (Bool-cases (ltb i (length nums))) [
  | inl inside ↦
      let e = length-set nums i (i32 (draw i)) in
      rw (inside, generate_loop)
        (generate_loop_over draw rounds (i + 1) (set nums i (i32 (draw i))) (ground (arith, e))
          (omega (arith, e)))
  | inr outside ↦ rw (outside, generate_loop) refl
]

-- The block is the one for the amount that the thread works with.
abbrev pub IsSized : Shared → Type 0
IsSized s =
    (nums : List ℤ) × (s.nums_array ≡ some nums)
    × (length nums ≡ bytes_for s.rand_nums_amount_current / 4)

-- What the invariant says of the end of a round.
abbrev pub IsSafe : Outcome → Type 0
IsSafe (goes_on s) = IsSized s × (s.rand_nums_amount_current ≡ s.rand_nums_amount)
IsSafe (stops s) = (s.nums_array ≡ none) × (s.mutex_locked ≡ true)
IsSafe out_of_bounds = ⊥

generate_in_eq :
    (draw : ℕ → ℕ) (s : Shared) (nums nums' : List ℤ)
    → generate_loop draw (rounds_for (i32 (u32 s.rand_nums_amount))) 0 nums ≡ some nums'
    → generate_in draw s (some nums)
      ≡ goes_on (record s { nums_array = some nums'; mutex_locked = false })
unfolding generate_random_numbers
generate_in_eq draw s nums nums' run = rw (run, generate_in) refl

generate_in-IsSafe :
    (draw : ℕ → ℕ) (s : Shared) (nums : List ℤ)
    → length nums ≡ bytes_for s.rand_nums_amount / 4
    → s.rand_nums_amount_current ≡ s.rand_nums_amount
    → IsSafe (generate_in draw s (some nums))
generate_in-IsSafe draw s nums size same =
    let (nums', run, same_length) =
      generate_loop_lem draw (rounds_for (i32 (u32 s.rand_nums_amount))) 0 nums
        (omega (arith, rounds-fit s.rand_nums_amount, size)) in
    subst IsSafe (sym (generate_in_eq draw s nums nums' run))
      ((nums', refl, same_length ∙ size ∙ ap (λ amount. bytes_for amount / 4) (sym same)), same)

module _ (draw : ℕ → ℕ) (kmalloc_works : Bool) (s : Shared) where
  same_amount :
      (nums : List ℤ)
      → eqb_ℤ s.rand_nums_amount_current s.rand_nums_amount ≡ true
      → s.nums_array ≡ some nums
      → thread_round draw kmalloc_works s ≡ generate_in draw s (some nums)
  unfolding thread_round
  same_amount nums same e = rw (same, e) refl

  new_amount :
      eqb_ℤ s.rand_nums_amount_current s.rand_nums_amount ≡ false
      → IsSafe (thread_round draw kmalloc_works s)
  unfolding thread_round
  new_amount other =
      elim kmalloc_works
        as (λ works. IsSafe (
          if eqb_ℤ s.rand_nums_amount_current s.rand_nums_amount
          then generate_in draw s s.nums_array
          else if works
          then generate_in draw (record s { rand_nums_amount_current = s.rand_nums_amount })
              (some (block s.rand_nums_amount))
          else stops (record s {
            nums_array = none;
            rand_nums_amount_current = s.rand_nums_amount;
            mutex_locked = true;
          }))) [
            | true ↦ rw other (
                generate_in-IsSafe draw (record s { rand_nums_amount_current = s.rand_nums_amount })
                  (block s.rand_nums_amount)
                  (length-replicate (bytes_for s.rand_nums_amount / 4) (pos 0)) refl)
            | false ↦ rw other (refl, refl)
          ]

-- If the block has the size for the amount that the thread works with, a round of thread_func writes
-- within it, whatever amount has been stored meanwhile: afterwards the block has the size for the new
-- amount, or kmalloc failed, and the thread has returned and left the mutex locked.
pub thread_round-IsSafe :
    (draw : ℕ → ℕ) (kmalloc_works : Bool) (s : Shared)
    → IsSized s
    → IsSafe (thread_round draw kmalloc_works s)
thread_round-IsSafe draw kmalloc_works s (nums, e, size) =
    elim (Bool-cases (eqb_ℤ s.rand_nums_amount_current s.rand_nums_amount)) [
      | inl same ↦
          let e' = (eqb_ℤ_iff s.rand_nums_amount_current s.rand_nums_amount).0 same in
          subst IsSafe (sym (same_amount draw kmalloc_works s nums same e))
            (generate_in-IsSafe draw s nums (size ∙ ap (λ amount. bytes_for amount / 4) e') e')
      | inr other ↦ new_amount draw kmalloc_works s other
    ]

-- The device can be written to before the thread starts. If the amount grows in that time, the thread
-- takes the new amount for the one that its block was made for, and its first round writes behind the
-- block.
pub late_start :
    (draw : ℕ → ℕ) (kmalloc_works : Bool) (before amount : ℕ)
    → before < amount
    → amount < 2 ^ 31
    → thread_round draw kmalloc_works
        (thread_start (store_amount (pos amount) (init_array (pos before))))
      ≡ out_of_bounds
unfolding generate_random_numbers
late_start draw kmalloc_works before amount more small =
    let s = thread_start (store_amount (pos amount) (init_array (pos before))) in
    let same : eqb_ℤ (pos amount) (pos amount) ≡ true = ground arith in
    let rounds : rounds_for (i32 (u32 (pos amount))) ≡ amount = ground arith in
    let size : length (block (pos before)) ≡ before =
      length-replicate (bytes_for (pos before) / 4) (pos 0) ∙ omega arith in
    same_amount draw kmalloc_works s (block (pos before)) same refl
    ∙ rw
        (
          generate_loop_over draw (rounds_for (i32 (u32 (pos amount)))) 0 (block (pos before))
              (omega arith) (omega (arith, rounds, size)),
          generate_in,
        )
        refl
