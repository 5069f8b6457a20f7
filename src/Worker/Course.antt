-- ===== src/Worker/Course.antt =====
-- The thread of module_device with the writers of module_device and the readers of module_interface.
use linux_c_homeworks.Prelude.{
  ℕ, suc, ◌+◌, ◌-◌, ◌*◌, ◌/◌, ◌^◌, ◌<◌, ◌≡◌, ◌≢◌, refl, ap, ◌∙◌, Bool, true, false, none, some,
  List, [], ◌∷◌, ltb, arith, length, length-replicate, get_elem?,
}
use mathlib.Core.Path.{subst}
use mathlib.Core.List.{append-nil}
use linux_c_homeworks.Prelude.Int.{ℤ, pos}
use linux_c_homeworks.Worker.{
  Shared, bytes_for, block, out_of_bounds, thread_round, thread_start, init_array, store_amount,
  Reach, start, stored, starts, filled,
}
use linux_c_homeworks.Worker.Bounds.{IsSized, IsSafe, thread_round-IsSafe, late_start}
use linux_c_homeworks.Reports.{max_buffer_size, interface_read, format_loop, copy_text}
use linux_c_homeworks.Reports.Numbers.{all_lines, format_prefix, interface_read_eq}

-- Without early writes the amount is the one of the block until the thread starts.
Reach-made :
    {s : Shared}
    → Reach false false s
    → (nums : List ℤ) × (s.nums_array ≡ some nums)
      × (length nums ≡ bytes_for s.rand_nums_amount / 4)
Reach-made (start amount) = (block amount, refl, length-replicate (bytes_for amount / 4) (pos 0))
Reach-made (stored amount r e) = absurd (cc e)

Reach-IsSized : {s : Shared} → Reach false true s → IsSized s
Reach-IsSized (stored amount r e) = Reach-IsSized r
Reach-IsSized (starts r) = Reach-made r
Reach-IsSized (filled {s} draw kmalloc_works r run) =
    (subst IsSafe run (thread_round-IsSafe draw kmalloc_works s (Reach-IsSized r))).0

-- If no write comes between the allocation in module_device_init and the start of the thread, then however
-- rounds of the thread and writes follow each other after the start, as long as kmalloc works, a further
-- round never writes outside the block, even if kmalloc fails in it. With a write in between there is a
-- run in which the first round writes outside the block.
pub rounds_in_bounds :
    {s : Shared} (draw : ℕ → ℕ) (kmalloc_works : Bool)
    → Reach false true s
    → (thread_round draw kmalloc_works s ≢ out_of_bounds)
      × ((t : Shared) × Reach true true t × (thread_round draw kmalloc_works t ≡ out_of_bounds))
rounds_in_bounds {s} draw kmalloc_works r = (
  λ e. subst IsSafe e (thread_round-IsSafe draw kmalloc_works s (Reach-IsSized r)),
  (
    thread_start (store_amount (pos 8) (init_array (pos 5))),
    starts (stored (pos 8) (start (pos 5)) refl),
    late_start draw kmalloc_works 5 8 (omega arith) (omega arith),
  ),
)

get_elem?-past : (xs : List ℤ) → get_elem? xs (length xs) ≡ none
get_elem?-past [] = refl
get_elem?-past (x ∷ xs) = get_elem?-past xs

format_past :
    (line : ℤ → List ℕ) (nums : List ℤ) (more copied : ℕ) (text : List ℕ)
    → copied < max_buffer_size
    → format_loop line nums (suc more) (length nums) copied text ≡ none
unfolding format_loop
format_past line nums more copied text h =
    let room : ltb copied max_buffer_size ≡ true = ground arith in
    rw (room, get_elem?-past nums, format_loop) refl

-- After a write that asks for more numbers than the block holds, and before the next round of the
-- thread, node_read of module_interface reads behind the block, unless its text gets too long before.
pub reads_past :
    (line : ℤ → List ℕ) (fault : Bool) (s : Shared) (nums : List ℤ) (amount len offset : ℕ)
    → ((z : ℤ) → 0 < length (line z))
    → s.nums_array ≡ some nums
    → length nums < amount
    → amount < 2 ^ 31
    → length (all_lines line nums) < max_buffer_size
    → offset < amount * 4
    → interface_read line fault
        (store_amount (pos amount) s).nums_array
        (store_amount (pos amount) s).rand_nums_amount
        len
        offset
      ≡ none
unfolding copy_text
reads_past line fault s nums amount len offset visible e grown small short inside =
    let more = amount - length nums - 1 in
    let split : amount ≡ length nums + suc more = omega (arith, grown) in
    let run = rw (append-nil nums) at (format_prefix line visible nums [] (suc more) short) in
    ap (λ array. interface_read line fault array (pos amount) len offset) e
    ∙ interface_read_eq line fault nums amount len offset small inside
    ∙ ap (λ n. copy_text line fault len offset (format_loop line nums n 0 0 [])) split
    ∙ ap (copy_text line fault len offset) (
        run ∙ format_past line nums more (length (all_lines line nums)) (all_lines line nums) short)
