-- ===== src/Chardev/Modules/Rand.antt =====
-- homework6: init_rand and deinit_rand of rand_main.c, node_open and node_release of rand_or.c.
use linux_c_homeworks.Prelude.{
  Bool, true, zero, suc, ◌+◌, some, none, [], ◌∷◌, ap, refl, ◌<◌, ◌^◌, ◌%◌, length,
}
use linux_c_homeworks.Prelude.Words.{i32, u32}
use linux_c_homeworks.Chardev.Open
use linux_c_homeworks.Chardev.Open.{Wake, awaits}
use linux_c_homeworks.Prelude.{ℕ, ◌≡◌, true, arith, not, if◌then◌else◌, Option, List}
use linux_c_homeworks.Prelude.Int.{ℤ, pos, negsuc, ltb_ℤ}
use linux_c_homeworks.Chardev.{
  proc_entry, valid, Answers, World, acquire, acquire_if, release, is_null, is_valid, minus_eacces,
}
use linux_c_homeworks.Chardev.Create.{
  create_device, remove_device, all_succeed, registered, IsTested, create_device_atomic,
  remove_device-create_device,
}

-- From alloc_chrdev_region on the text is that of create_device; on its errors the /proc entry
-- stays.
pub init_rand : Answers → World → ℤ × World
init_rand k w =
    if is_null k.proc_create
    then (minus_eacces, w)
    else create_device k (acquire_if (is_valid k.proc_create) proc_entry w)

pub deinit_rand : World → World
deinit_rand w = release proc_entry (remove_device w)

-- Where the kernel fails only in the ways that are tested for: init_rand returns 0 exactly if every
-- call succeeds, and then holds the four resources and the /proc entry. Without the entry it
-- changes nothing, and after any later failure it still holds the entry.
pub init_rand_lem :
    (k : Answers) (w : World)
    → IsTested k
    → (k.proc_create ≡ valid)
    → ((init_rand k w).1
        ≡ (if all_succeed k then registered (acquire proc_entry w) else acquire proc_entry w))
      × (ltb_ℤ (init_rand k w).0 (pos 0) ≡ not (all_succeed k))
unfolding init_rand
init_rand_lem k w t p = ground (arith, create_device_atomic k (acquire proc_entry w) t)

-- deinit_rand gives back all that an init_rand holds in which every call succeeded.
pub deinit_rand-init_rand :
    (k : Answers) (w : World)
    → k.proc_create ≡ valid
    → all_succeed k ≡ true
    → deinit_rand (init_rand k w).1 ≡ w
unfolding init_rand deinit_rand
deinit_rand-init_rand k w p h =
    ground (arith, remove_device-create_device k (acquire proc_entry w) h)

-- The loop of generate_random_numbers: what it prints; `draw i` is what get_random_bytes stores.
pub generate_loop : (ℕ → ℕ) → ℕ → ℕ → List ℤ
generate_loop draw zero i = []
generate_loop draw (suc rounds) i = i32 (draw i) ∷ generate_loop draw rounds (i + 1)

-- For a negative amount it prints no number.
pub generate_random_numbers : (ℕ → ℕ) → ℤ → List ℤ
generate_random_numbers draw (pos nums_amount) = generate_loop draw nums_amount 0
generate_random_numbers draw (negsuc n) = []

-- The end of node_open of rand_or.c. The amount is a `long`, which becomes an `int` in the call.
pub generate_if_opened : (ℕ → ℕ) → ℤ → Option (ℤ × Bool) → Option (ℤ × Bool × List ℤ)
generate_if_opened draw rand_nums_amount none = none
generate_if_opened draw rand_nums_amount (some (pos n, opened)) =
    some (pos n, opened, generate_random_numbers draw (i32 (u32 rand_nums_amount)))
generate_if_opened draw rand_nums_amount (some (negsuc n, opened)) = some (negsuc n, opened, [])

-- node_open of rand_or.c: the code and the new value of already_opened, and the numbers that it
-- prints.
pub node_open : (ℕ → ℕ) → ℤ → Bool → List Wake → Bool → Option (ℤ × Bool × List ℤ)
node_open draw rand_nums_amount nonblock wakes already_opened =
    generate_if_opened draw rand_nums_amount (Open.node_open nonblock wakes already_opened)

pub node_release : ℤ × Bool
node_release = Open.node_release

length-generate_loop : (draw : ℕ → ℕ) (rounds i : ℕ) → length (generate_loop draw rounds i) ≡ rounds
unfolding generate_loop
length-generate_loop draw zero i = refl
length-generate_loop draw (suc rounds) i = ap suc (length-generate_loop draw rounds (i + 1))

generate_if_opened-length :
    (draw : ℕ → ℕ) (amount : ℕ) (result : Option (ℤ × Bool)) (code : ℤ) (opened : Bool)
    (numbers : List ℤ)
    → amount < 2 ^ 31
    → generate_if_opened draw (pos amount) result ≡ some (code, opened, numbers)
    → length numbers ≡ (if ltb_ℤ code (pos 0) then 0 else amount)
unfolding generate_if_opened generate_random_numbers
generate_if_opened-length draw amount none code opened numbers small run = absurd (cc run)
generate_if_opened-length draw amount (some (pos n, o)) code opened numbers small run =
    let e : i32 (amount % 2 ^ 32) ≡ pos amount = ground arith in
    ground (arith, rw e at run, length-generate_loop draw amount 0)
generate_if_opened-length draw amount (some (negsuc n, o)) code opened numbers small run =
    ground arith

-- A call of node_open of homework6 that opens the device, with an amount that an int can hold, prints
-- as many numbers as the amount says; a call that fails prints none.
pub node_open-generates :
    (draw : ℕ → ℕ) (amount : ℕ) (nonblock : Bool) (wakes : List Wake) (already_opened : Bool)
    (code : ℤ) (opened : Bool) (numbers : List ℤ)
    → amount < 2 ^ 31
    → node_open draw (pos amount) nonblock wakes already_opened ≡ some (code, opened, numbers)
    → length numbers ≡ (if ltb_ℤ code (pos 0) then 0 else amount)
unfolding node_open
node_open-generates draw amount nonblock wakes already_opened code opened numbers small run =
    generate_if_opened-length draw amount (Open.node_open nonblock wakes already_opened) code opened
      numbers small run
