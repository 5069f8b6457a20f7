-- ===== src/Chardev/Create.antt =====
-- create_device, one text in homework9/module_device, homework9/module_interface and
-- homework12/keyboard_irq and the second half of init_rand of homework6, and what undoes it.
use linux_c_homeworks.Prelude.{
  ℕ, ◌+◌, ◌≡◌, ◌⊎◌, Bool, true, false, arith, ◌&&◌, ◌||◌, not, if◌then◌else◌,
}
use linux_c_homeworks.Prelude.Int.{ℤ, pos, negsuc, ltb_ℤ, eqb_ℤ}
use linux_c_homeworks.Chardev.{
  region, class, device, cdev, null, valid, Answers, World, acquire, acquire_if, release, is_held,
  is_valid, is_null, minus_enodev,
}

-- The end of create_device, with the device made or an error pointer taken for it.
unfoldable pub add_cdev : Answers → World → ℤ × World
add_cdev k w =
    if eqb_ℤ k.cdev_add (negsuc 0)
    then (minus_enodev, release region (release class (release device w)))
    else (pos 0, acquire_if (eqb_ℤ k.cdev_add (pos 0)) cdev w)

-- The part after class_create.
unfoldable pub make_device : Answers → World → ℤ × World
make_device k w =
    if is_null k.device_create
    then (minus_enodev, release region (release class w))
    else add_cdev k (acquire_if (is_valid k.device_create) device w)

unfoldable pub create_device : Answers → World → ℤ × World
create_device k w =
    if ltb_ℤ k.alloc_chrdev_region (pos 0)
    then (k.alloc_chrdev_region, w)
    else if is_null k.class_create
    then (minus_enodev, release region (acquire region w))
    else make_device k (acquire_if (is_valid k.class_create) class (acquire region w))

-- The four calls with which each module's exit function begins.
unfoldable pub remove_device : World → World
remove_device w = release region (release class (release device (release cdev w)))

-- The failures that create_device tests for: NULL pointers, and -1 from cdev_add.
abbrev pub IsTested : Answers → Type 0
IsTested k =
    ((k.class_create ≡ null) ⊎ (k.class_create ≡ valid))
    × ((k.device_create ≡ null) ⊎ (k.device_create ≡ valid))
    × ((k.cdev_add ≡ negsuc 0) ⊎ (k.cdev_add ≡ pos 0))

-- Whether every call succeeds.
abbrev pub all_succeed : Answers → Bool
all_succeed k =
    not (ltb_ℤ k.alloc_chrdev_region (pos 0))
    && is_valid k.class_create
    && is_valid k.device_create
    && eqb_ℤ k.cdev_add (pos 0)

abbrev pub one_unless : Bool → ℕ
one_unless true = 0
one_unless false = 1

abbrev pub registered : World → World
registered w = acquire cdev (acquire device (acquire class (acquire region w)))

-- Where the kernel fails only in the ways that are tested for, which are not those of the present kernel,
-- create_device does all or nothing:
-- if every call succeeds it returns 0 and holds the four resources, and else it returns a negative
-- code and holds what it held before, having released nothing that it did not hold.
pub create_device_atomic :
    (k : Answers) (w : World)
    → IsTested k
    → ((create_device k w).1 ≡ (if all_succeed k then registered w else w))
      × (ltb_ℤ (create_device k w).0 (pos 0) ≡ not (all_succeed k))
      × (eqb_ℤ (create_device k w).0 (pos 0) ≡ all_succeed k)
unfolding create_device make_device add_cdev
create_device_atomic k w t = ground arith

-- How many calls of create_device fail in a way that it does not notice.
unfoldable pub unnoticed : Answers → ℕ
unnoticed k =
    if ltb_ℤ k.alloc_chrdev_region (pos 0)
    then 0
    else if is_null k.class_create
    then 0
    else one_unless (is_valid k.class_create)
      + (if is_null k.device_create
          then 0
          else one_unless (is_valid k.device_create)
            + one_unless (eqb_ℤ k.cdev_add (pos 0) || eqb_ℤ k.cdev_add (negsuc 0)))

-- Of the four resources nothing is held.
abbrev pub IsFree : World → Type 0
IsFree w =
    (is_held region w.held ≡ false)
    × (is_held class w.held ≡ false)
    × (is_held device w.held ≡ false)
    × (is_held cdev w.held ≡ false)

-- Whatever the kernel answers, error pointers and all codes of cdev_add included, where nothing of the
-- device was held before: after a create_device that returns 0 and the calls of the exit function, and
-- after a create_device that returns another code, the same is held as before, and as many things that
-- were not held have been released as calls have failed in a way that create_device does not notice. It
-- returns 0 exactly when it gets the numbers, neither pointer is NULL, and cdev_add does not return -1.
pub create_device_undone :
    (k : Answers) (w : World)
    → IsFree w
    → ((if eqb_ℤ (create_device k w).0 (pos 0)
          then remove_device (create_device k w).1
          else (create_device k w).1)
        ≡ record w { misuse = w.misuse + unnoticed k })
      × (eqb_ℤ (create_device k w).0 (pos 0) ≡ (
          not (ltb_ℤ k.alloc_chrdev_region (pos 0))
          && not (is_null k.class_create)
          && not (is_null k.device_create)
          && not (eqb_ℤ k.cdev_add (negsuc 0))))
unfolding create_device make_device add_cdev remove_device unnoticed
create_device_undone k w (fr, fc, fd, fv) = (ground arith, ground arith)

pub remove_device-registered : (w : World) → remove_device (registered w) ≡ w
unfolding remove_device
remove_device-registered w = ground arith

pub create_device_succeeds :
    (k : Answers) (w : World) → all_succeed k ≡ true → create_device k w ≡ (pos 0, registered w)
unfolding create_device make_device add_cdev
create_device_succeeds k w h = ground arith

-- After a create_device in which every call succeeds, the exit function gives everything back.
pub remove_device-create_device :
    (k : Answers) (w : World) → all_succeed k ≡ true → remove_device (create_device k w).1 ≡ w
unfolding create_device make_device add_cdev remove_device
remove_device-create_device k w h = ground arith

-- create_device returns 0 though the device cannot be opened, where the other calls succeed and
-- cdev_add fails with a code that is not -1: no cdev is held, and the exit function releases one.
pub create_device_misses :
    (k : Answers) (w : World)
    → ltb_ℤ k.alloc_chrdev_region (pos 0) ≡ false
    → k.class_create ≡ valid
    → k.device_create ≡ valid
    → eqb_ℤ k.cdev_add (negsuc 0) ≡ false
    → ltb_ℤ k.cdev_add (pos 0) ≡ true
    → is_held cdev w.held ≡ false
    → ((create_device k w).0 ≡ pos 0)
      × (is_held cdev (create_device k w).1.held ≡ false)
      × ((remove_device (create_device k w).1).misuse ≡ w.misuse + 1)
unfolding create_device make_device add_cdev remove_device
create_device_misses k w ha hc hd hv hn free = ground arith
