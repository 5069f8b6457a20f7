-- ===== src/Chardev.antt =====
-- The life of the character devices of linux_kernel_development: how homework6/rand_main.c,
-- homework9/module_device/module_device_main.c, homework9/module_interface/module_interface_main.c and
-- homework12/keyboard_irq/keyboard_irq_main.c register with the kernel and give back what they hold,
-- and how their node_open and node_release share the device.
-- What the kernel answers to each call is an argument, the record Answers.
pub mod Create
pub mod Open
pub mod Modules
pub mod Sharing
mod Tests
use linux_c_homeworks.Prelude.{ℕ, ◌+◌, Bool, true, false, List, [], ◌∷◌, ◌==◌, if◌then◌else◌}
use linux_c_homeworks.Prelude.Int.{ℤ, pos, negsuc, ltb_ℤ, eqb_ℤ}

-- What a module can hold of the kernel.
pub data Resource : Type 0 where
  proc_entry region class device cdev irq memory thread task : Resource

abbrev pub same : Resource → Resource → Bool
same proc_entry proc_entry = true
same region region = true
same class class = true
same device device = true
same cdev cdev = true
same irq irq = true
same memory memory = true
same thread thread = true
same task task = true
same _ _ = false

-- A kernel function that returns a pointer returns NULL, an error pointer, or a valid pointer.
pub data Pointer : Type 0 where
  null err_ptr valid : Pointer

pub record Answers : Type 0 where
  pub proc_create : Pointer
  pub alloc_chrdev_region : ℤ
  pub class_create : Pointer
  pub device_create : Pointer
  pub cdev_add : ℤ
  pub request_irq : ℤ
  pub kmalloc : Pointer
  pub kthread_create : Pointer

-- What is held, the latest first, and how often something was released that was not held.
pub record World : Type 0 where
  pub held : List Resource
  pub misuse : ℕ

abbrev pub is_held : Resource → List Resource → Bool
is_held r [] = false
is_held r (x ∷ xs) = if same r x then true else is_held r xs

abbrev pub remove : Resource → List Resource → List Resource
remove r [] = []
remove r (x ∷ xs) = if same r x then xs else x ∷ remove r xs

abbrev pub acquire : Resource → World → World
acquire r w = record w { held = r ∷ w.held }

abbrev pub acquire_if : Bool → Resource → World → World
acquire_if true r w = acquire r w
acquire_if false r w = w

abbrev pub release : Resource → World → World
release r w =
    if is_held r w.held
    then record w { held = remove r w.held }
    else record w { misuse = w.misuse + 1 }

abbrev pub is_valid : Pointer → Bool
is_valid valid = true
is_valid _ = false

abbrev pub is_null : Pointer → Bool
is_null null = true
is_null _ = false

abbrev pub minus_enodev : ℤ
minus_enodev = negsuc 18

abbrev pub minus_eacces : ℤ
minus_eacces = negsuc 12

abbrev pub minus_enosys : ℤ
minus_enosys = negsuc 37
